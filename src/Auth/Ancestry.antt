-- ===== src/Auth/Ancestry.antt =====
-- cmux/src/socket/auth.rs: which processes the control mode `CmuxOnly` lets in.
use cmux_gtk.Prelude.{
  ℕ, zero, suc, ◌<◌, ◌≡◌, ◌≢◌, ◌↔◌, refl, ◌==◌, leb, true, false, Option, some, Str, arith,
  Bool-cases, inl, inr, Option-cases,
}
use cmux_gtk.ProcStatus.{read_ppid}
use cmux_gtk.Auth.{PeerInfo, cmux_only, walk, is_descendant, is_same_user, is_authorized}

module _ (parent : ℕ → Option ℕ) where
  -- `Descends k p a`: the process `a` is `k` generations above `p`, and no process on the way is
  -- the first one, number 1, or its own parent.
  pub data Descends : ℕ → ℕ → ℕ → Type 0 where
    itself : (a : ℕ) → Descends 0 a a
    child :
        (k p q a : ℕ) → 1 < p → parent p ≡ some q → q ≢ p → Descends k q a → Descends (suc k) p a

  walk_complete : {k p a : ℕ} → Descends k p a → (n : ℕ) → k < n → walk parent n p a ≡ true
  unfolding walk
  walk_complete (itself a) zero h = elim h [ ]
  walk_complete (itself a) (suc n) h = ground arith
  walk_complete (child k p q a big e other d) zero h = elim h [ ]
  walk_complete (child k p q a big e other d) (suc n) h =
      let ih = walk_complete d n (omega arith) in
      let not_first : leb p 1 ≡ false = ground arith in
      let not_own : (q == p) ≡ false = ground arith in
      elim (Bool-cases (p == a)) [
        | inl there ↦ rw there refl
        | inr further ↦ rw (further, not_first, e) (rw not_own ih)
      ]

  walk_sound : (n p a : ℕ) → walk parent n p a ≡ true → (k : ℕ) × (k < n) × Descends k p a
  unfolding walk
  walk_sound zero p a h = absurd (ground arith)
  walk_sound (suc n) p a h = elim (Bool-cases (p == a)) [
    | inl e ↦ let same : p ≡ a = ground arith in (0, omega arith, rw same (itself a))
    | inr further ↦ elim (Bool-cases (leb p 1)) [
      | inl e ↦ absurd (ground arith)
      | inr later ↦ elim (Option-cases (parent p)) [
        | inl e ↦ absurd (ground (arith, rw (further, later, e) at h))
        | inr (q, e) ↦ elim (Bool-cases (q == p)) [
          | inl own ↦ absurd (ground (arith, rw (further, later, e) at h))
          | inr other ↦
              let rest : walk parent n q a ≡ true = ground (arith, rw (further, later, e) at h) in
              let (k, lt, d) = walk_sound n q a rest in
              (suc k, omega arith, child k p q a (ground arith) e (ground arith) d)
        ]
      ]
    ]
  ]

module _ (read_status : ℕ → Option Str) where
  abbrev pub Within : ℕ → ℕ → Type 0
  Within pid server_pid = (k : ℕ) × (k < 64) × Descends (read_ppid read_status) k pid server_pid

  -- In the mode `CmuxOnly` a peer with a process number is let in exactly when it runs as the user
  -- of the server and the server is fewer than 64 generations above it.
  pub is_authorized_iff :
      (getuid : ℕ) (peer : PeerInfo) (server_pid : ℕ)
      → 0 < peer.pid
      → (is_authorized read_status getuid peer cmux_only server_pid ≡ true)
        ↔ ((peer.uid ≡ getuid) × Within peer.pid server_pid)
  unfolding is_authorized is_same_user is_descendant
  is_authorized_iff getuid peer server_pid h =
      let known : (peer.pid == 0) ≡ false = ground arith in
      (
        λ t.
            let split : (peer.uid ≡ getuid)
                × (is_descendant read_status peer.pid server_pid ≡ true) =
              ground arith in
            (
              split.0,
              walk_sound (read_ppid read_status) 64 peer.pid server_pid (rw known at split.1),
            ),
        λ (same, (k, lt, d)).
            let found = walk_complete (read_ppid read_status) d 64 lt in
            rw known (ground (arith, found)),
      )
