-- ===== src/ProcStatus.antt =====
-- cmux/src/socket/auth.rs: `read_ppid`, which reads the parent of a process in the text of
-- /proc/PID/status; `read_status` is what the file system has.
use cmux_gtk.Prelude.{
  ℕ, ◌+◌, ◌*◌, ◌-◌, ◌^◌, ◌==◌, ltb, leb, Str, codes, ◌&&◌, Option, none, some, List, [], ◌∷◌,
  if◌then◌else◌,
}
use cmux_gtk.Workspace.Notices.{trim}

-- `str::lines` at the line feeds; the carriage return that it drops is space, which `trim` drops.
lines : Str → List Str
lines [] = []
lines (c ∷ s) =
    let rest = lines s in
    if c == 0x0a
    then [] ∷ rest
    else elim rest [ [] ↦ (c ∷ []) ∷ [] | line ∷ more ↦ (c ∷ line) ∷ more ]

pub strip_prefix : Str → Str → Option Str
strip_prefix [] s = some s
strip_prefix (p ∷ ps) [] = none
strip_prefix (p ∷ ps) (c ∷ s) = let rest = strip_prefix ps s in if p == c then rest else none

-- The digits of a number below a bound.
digits : ℕ → ℕ → Str → Option ℕ
digits bound acc [] = some acc
digits bound acc (c ∷ s) =
    let next = acc * 10 + (c - 48) in
    let rest = digits bound next s in
    if leb 48 c && (leb c 57 && ltb next bound) then rest else none

-- `str::parse` to an unsigned integer: a sign `+` is allowed, a number is needed.
unfoldable pub parse_unsigned : ℕ → Str → Option ℕ
unfolding digits
parse_unsigned bound [] = none
parse_unsigned bound (c ∷ []) = if c == 43 then none else digits bound 0 (c ∷ [])
parse_unsigned bound (c ∷ d ∷ s) =
    if c == 43 then digits bound 0 (d ∷ s) else digits bound 0 (c ∷ d ∷ s)

first_ppid : List Str → Option ℕ
unfolding strip_prefix parse_unsigned trim
first_ppid [] = none
first_ppid (line ∷ more) =
    let later = first_ppid more in
    elim (strip_prefix (codes "PPid:") line) [
      | none ↦ later
      | some rest ↦ parse_unsigned (2 ^ 32) (trim rest)
    ]

module _ (read_status : ℕ → Option Str) where
  unfoldable pub read_ppid : ℕ → Option ℕ
  unfolding lines first_ppid
  read_ppid pid = elim (read_status pid) [ none ↦ none | some status ↦ first_ppid (lines status) ]
