-- ===== src/Session/Restore/Panels.antt =====
-- cmux/src/app.rs: the panels that are restored against those that were saved.
use cmux_gtk.Prelude.{
  Uuid, ◌==◌, ◌≡◌, refl, sym, ◌∙◌, ap, ◌⊎◌, inl, inr, Str, true, false, Option, none, some, List,
  [], ◌∷◌, map, arith, Bool-cases, Option-cases, Map, get, contains_key, insert, get-without,
  get-contains_key, F64,
}
use cmux_gtk.Panel.{PanelType, terminal, browser, markdown, Panel}
use cmux_gtk.Session.Agent.{detect_agent_resume_command}
use cmux_gtk.Session.Snapshot.{
  Collected, SessionPanelSnapshot, type_name, panel_snapshot, from_panel, agent_of, terminal_of,
  browser_of, markdown_of, fill_browser,
}
use cmux_gtk.Session.Restore.{
  AgentRestoreSettings, is_enabled_for, command_of, type_of, restored_panel, restore_panels,
}

module _ {F : Type 0} where
  -- Each key is there once and is the identifier of its panel.
  abbrev pub IsKeyed : Map (Panel F) → Type 0
  IsKeyed [] = Unit
  IsKeyed ((k, p) ∷ m) = (p.id ≡ k) × (contains_key k m ≡ false) × IsKeyed m

type_of-type_name : (t : PanelType) → type_of true (type_name t) ≡ some t
unfolding type_of type_name
type_of-type_name terminal = refl
type_of-type_name browser = refl
type_of-type_name markdown = refl

module _ {F : Type 0} ⦃f : F64 F⦄ (to_lowercase : Str → Str) (settings : AgentRestoreSettings)
    (c : Collected F) where
  -- A panel that was saved and restored.
  abbrev pub back : Panel F → Panel F
  back p = restored_panel settings p.panel_type (panel_snapshot to_lowercase c p)

  restored_or : Option (Panel F) → Option (Panel F) → Option (Panel F)
  restored_or none other = other
  restored_or (some p) other = some (back p)

  restore_one :
      (p : Panel F) (more : List (SessionPanelSnapshot F)) (acc : Map (Panel F))
      → restore_panels true settings (panel_snapshot to_lowercase c p ∷ more) acc
        ≡ restore_panels true settings more (insert p.id (back p) acc)
  unfolding restore_panels panel_snapshot from_panel
  restore_one p more acc = rw (restore_panels, type_of-type_name p.panel_type) refl

  -- The last panel inserted under a key is the one that is found.
  restore_panels-get :
      (k : Uuid) (m acc : Map (Panel F))
      → IsKeyed m
      → get k
          (restore_panels true settings (map (λ (id, p). panel_snapshot to_lowercase c p) m) acc)
        ≡ restored_or (get k m) (get k acc)
  unfolding restored_or restore_panels
  restore_panels-get k [] acc h = refl
  restore_panels-get k ((j, p) ∷ m) acc (same, once, h) =
      let rest = restore_panels-get k m (insert p.id (back p) acc) h in
      rw (restore_one p (map (λ (id, q). panel_snapshot to_lowercase c q) m) acc, rest)
        (elim (Bool-cases (j == k)) [
          | inl e ↦
              let found : (p.id == k) ≡ true = ground arith in
              let is : j ≡ k = ground arith in
              let away : contains_key k m ≡ false = ap (λ a. contains_key a m) (sym is) ∙ once in
              let absent : get k m ≡ none = ground (arith, get-contains_key k m) in
              rw (e, found, absent) refl
          | inr n ↦
              let other : (p.id == k) ≡ false = ground arith in
              rw (n, other, get-without k p.id acc, other) refl
        ])

  -- What is kept of a panel with its type.
  abbrev IsKeptBy : PanelType → Panel F → Panel F → Type 0
  IsKeptBy terminal p q = q.pending_scrollback ≡ get p.id c.scrollback_map
  IsKeptBy browser p q =
      q.browser_url ≡ (elim (get p.id c.browser_url_map) [ none ↦ p.browser_url | some u ↦ some u ])
  IsKeptBy markdown p q = q.markdown_file ≡ p.markdown_file

  -- The command of a terminal is its own, or that of an agent it runs, whose toggle is on.
  abbrev IsCommand : Panel F → Panel F → Type 0
  IsCommand p q =
      (q.command ≡ p.command)
      ⊎ ((agent : Str) × (detect_agent_resume_command to_lowercase p.title p.command ≡ some agent)
          × (is_enabled_for settings agent ≡ true)
          × (q.command ≡ some agent))

  -- The panel `q` is `p` after the program was started again.
  pub record IsKept (p q : Panel F) : Type 0 where
    pub id : q.id ≡ p.id
    pub panel_type : q.panel_type ≡ p.panel_type
    pub title : q.title ≡ p.title
    pub custom_title : q.custom_title ≡ p.custom_title
    pub directory : q.directory ≡ p.directory
    pub is_pinned : q.is_pinned ≡ p.is_pinned
    pub is_manually_unread : q.is_manually_unread ≡ p.is_manually_unread
    pub git_branch : q.git_branch ≡ p.git_branch
    pub listening_ports : q.listening_ports ≡ p.listening_ports
    pub tty_name : q.tty_name ≡ p.tty_name
    pub command : IsCommand p q
    pub by_type : IsKeptBy p.panel_type p q

  -- The same of two lookups in the maps of panels.
  abbrev pub IsKeptAt : Option (Panel F) → Option (Panel F) → Type 0
  IsKeptAt none none = Unit
  IsKeptAt (some p) (some q) = IsKept p q
  IsKeptAt none (some q) = false ≡ true
  IsKeptAt (some p) none = false ≡ true

  by_type-IsKeptBy :
      (t : PanelType) (p : Panel F)
      → p.panel_type ≡ t
      → IsKeptBy t p (restored_panel settings t (panel_snapshot to_lowercase c p))
  unfolding restored_panel panel_snapshot from_panel terminal_of browser_of markdown_of fill_browser
  by_type-IsKeptBy terminal p e = rw e refl
  by_type-IsKeptBy browser p e = rw e refl
  by_type-IsKeptBy markdown p e = elim (Option-cases p.markdown_file) [
    | inl n ↦ rw (e, n) refl
    | inr (file, s) ↦ rw (e, s) refl
  ]

  command_of-IsCommand :
      (p : Panel F) (agent : Option Str)
      → ((a : Str)
          → agent ≡ some a
          → detect_agent_resume_command to_lowercase p.title p.command ≡ some a)
      → (command_of settings agent p.command ≡ p.command)
        ⊎ ((a : Str) × (detect_agent_resume_command to_lowercase p.title p.command ≡ some a)
            × (is_enabled_for settings a ≡ true)
            × (command_of settings agent p.command ≡ some a))
  unfolding command_of
  command_of-IsCommand p none h = inl refl
  command_of-IsCommand p (some a) h = elim (Bool-cases (is_enabled_for settings a)) [
    | inl e ↦ inr (a, h a refl, e, rw e refl)
    | inr n ↦ inl (rw n refl)
  ]

  agent_of-detected :
      (t : PanelType) (p : Panel F) (a : Str)
      → agent_of to_lowercase t p ≡ some a
      → detect_agent_resume_command to_lowercase p.title p.command ≡ some a
  unfolding agent_of
  agent_of-detected terminal p a e = e
  agent_of-detected browser p a e = absurd (ground arith)
  agent_of-detected markdown p a e = absurd (ground arith)

  back-IsKept : (p : Panel F) → IsKept p (back p)
  unfolding restored_panel panel_snapshot from_panel
  back-IsKept p = record {
    id = refl;
    panel_type = refl;
    title = refl;
    custom_title = refl;
    directory = refl;
    is_pinned = refl;
    is_manually_unread = refl;
    git_branch = refl;
    listening_ports = refl;
    tty_name = refl;
    command =
        command_of-IsCommand p (agent_of to_lowercase p.panel_type p)
          (agent_of-detected p.panel_type p);
    by_type = by_type-IsKeptBy p.panel_type p refl;
  }

  restored_or-IsKeptAt : (o : Option (Panel F)) → IsKeptAt o (restored_or o none)
  unfolding restored_or
  restored_or-IsKeptAt none = tt
  restored_or-IsKeptAt (some p) = back-IsKept p

  -- Under each identifier there is the panel that was saved, or none if there was none.
  pub restore_panels-IsKeptAt :
      (m : Map (Panel F)) (k : Uuid)
      → IsKeyed m
      → IsKeptAt (get k m) (
          get k
            (restore_panels true settings (map (λ (id, p). panel_snapshot to_lowercase c p) m) []))
  restore_panels-IsKeptAt m k h = rw (restore_panels-get k m [] h) (restored_or-IsKeptAt (get k m))
