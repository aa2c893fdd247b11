-- ===== src/Panel/Workspaces/Names.antt =====
-- The names that src/nscde_pagerd/nscde_pagerd.c writes and `parse_workspaces_env_contents` of
-- src/nscde_paneld/nscde_paneld.c reads.
use orca_cde.Daemon.Lines.{line}
use orca_cde.Daemon.Slots.Validity.{Live}
use orca_cde.Pager.{Workspace, Pager, occupant}
use orca_cde.Pager.State.{names_text, write_workspaces_state}
use orca_cde.Pager.Validity.{IsPager, IsNamed}
use orca_cde.Panel.Settings.{env_settings}
use orca_cde.Panel.Settings.Lines.{lines_text, IsValue, IsSetting, env_settings-lines_text}
use orca_cde.Panel.Workspaces.{
  max_workspaces, max_name_len, state_line_len, Button, Workspaces, skip_spaces, comma_parts,
  written, parse_names, parse_workspaces_setting, parse_workspaces_settings, parse_workspaces,
}
use orca_cde.Prelude.{
  ℕ, zero, suc, ◌≤◌, ◌<◌, Bool, true, false, List, [], ◌∷◌, ◌++◌, ◌≡◌, refl, sym, ap, ◌∙◌, arith,
  ◌==◌, map, append-nil, length, take, Bytes, codes, decimal, decimal-Lacks, Lacks, Lacks-append,
  split, split-append, non_empty, clip, clip_of_length-lt, equal, All,
}

-- A name that the panel reads as it is.
abbrev pub IsName : Bytes → Type 0
IsName [] = ⊥
IsName (c ∷ s) = ((c == b' ') ≡ false) × Lacks b',' (c ∷ s) × IsValue (c ∷ s)

-- The names of the workspaces that there are.
abbrev pub names_of : Pager → List Bytes
names_of p = map (λ (w : Workspace). w.name) (take p.workspace_count p.workspaces)

-- The names of the workspaces that the panel shows.
abbrev pub shown : Workspaces → List Bytes
shown w = map (λ (b : Button). b.name) (take w.workspace_count w.workspaces)

split-Lacks_all : (c : ℕ) (s : Bytes) → Lacks c s → split c s ≡ s ∷ []
unfolding split
split-Lacks_all c [] h = refl
split-Lacks_all c (x ∷ s) h = ground (arith, h.0, split-Lacks_all c s h.1)

name-Lacks : (s : Bytes) → IsName s → Lacks b',' s
name-Lacks [] h = absurd h
name-Lacks (c ∷ s) h = h.1

name-IsValue : (s : Bytes) → IsName s → IsValue s
name-IsValue [] h = absurd h
name-IsValue (c ∷ s) h = h.2

abbrev names_in : ℕ → List Workspace → List Bytes
names_in n ws = map (λ (w : Workspace). w.name) (take n ws)

split-names_text :
    (n : ℕ) (p : Bytes) (ws : List Workspace)
    → Lacks b',' p
    → Live occupant n ws
    → All IsName (names_in n ws)
    → split b',' (p ++ names_text n false ws) ≡ p ∷ names_in n ws
unfolding names_text
split-names_text zero p ws h l a = ap (split b',') (append-nil p) ∙ split-Lacks_all b',' p h
split-names_text (suc n) p [] h l a = absurd l
split-names_text (suc n) p (w ∷ ws) h l a =
    rw (l.0, names_text)
      (split-append b',' p (w.name ++ names_text n false ws) h
        ∙ ap (p ∷◌) (split-names_text n w.name ws (name-Lacks w.name a.0) l.1 a.1))

non_empty-IsName : (ns : List Bytes) → All IsName ns → non_empty ns ≡ ns
non_empty-IsName [] a = refl
non_empty-IsName ([] ∷ ns) a = absurd (a.0)
non_empty-IsName ((c ∷ s) ∷ ns) a = ap ((c ∷ s) ∷◌) (non_empty-IsName ns a.1)

tokens-names_text :
    (n : ℕ) (ws : List Workspace)
    → Live occupant n ws
    → All IsName (names_in n ws)
    → non_empty (split b',' (names_text n true ws)) ≡ names_in n ws
unfolding names_text split
tokens-names_text zero ws l a = refl
tokens-names_text (suc n) [] l a = absurd l
tokens-names_text (suc n) (w ∷ ws) l a =
    rw (l.0, names_text)
      (ap non_empty (split-names_text n w.name ws (name-Lacks w.name a.0) l.1 a.1)
        ∙ non_empty-IsName (w.name ∷ names_in n ws) a)

take_all : (n : ℕ) (ns : List Bytes) → length ns ≤ n → take n ns ≡ ns
take_all zero [] h = refl
take_all zero (x ∷ ns) h = absurd (omega (arith, h))
take_all (suc n) [] h = refl
take_all (suc n) (x ∷ ns) h = ap (x ∷◌) (take_all n ns (omega (arith, h)))

length-names_in : (n : ℕ) (ws : List Workspace) → Live occupant n ws → length (names_in n ws) ≡ n
length-names_in zero ws l = refl
length-names_in (suc n) [] l = absurd l
length-names_in (suc n) (w ∷ ws) l = ap suc (length-names_in n ws l.1)

named-name :
    (name : Bytes)
    → IsName name
    → length name < max_name_len
    → clip max_name_len (skip_spaces name) ≡ name
unfolding skip_spaces
named-name [] h b = absurd h
named-name (c ∷ s) h b = rw (h.0, skip_spaces) (clip_of_length-lt max_name_len (c ∷ s) b)

-- The slots that were written over show what was written.
shown-written :
    (ns : List Bytes) (bs : List Button)
    → All IsName ns
    → All (λ n. length n < max_name_len) ns
    → length ns ≤ length bs
    → map (λ (b : Button). b.name) (take (length ns) (written ns bs)) ≡ ns
unfolding written
shown-written [] bs h k b = refl
shown-written (n ∷ ns) [] h k b = absurd (omega (arith, b))
shown-written (n ∷ ns) (x ∷ bs) h k b =
    ap (λ m. m ∷ map (λ (y : Button). y.name) (take (length ns) (written ns bs)))
      (named-name n h.0 k.0)
    ∙ ap (n ∷◌) (shown-written ns bs h.1 k.1 (omega (arith, b)))

fitting :
    (n : ℕ) (ws : List Workspace)
    → All IsNamed ws
    → All (λ s. length s < max_name_len) (names_in n ws)
fitting zero ws a = tt
fitting (suc n) [] a = tt
fitting (suc n) (w ∷ ws) a = (a.0, fitting n ws a.1)

-- The settings among the lines of the state.
abbrev settings : Pager → List (Bytes × Bytes)
settings p =
    (codes "NSCDE_WORKSPACES", names_text p.workspace_count true p.workspaces)
    ∷ (codes "NSCDE_WORKSPACE_COUNT", decimal p.workspace_count)
    ∷ (codes "NSCDE_CURRENT_WORKSPACE", p.current_workspace)
    ∷ (codes "NSCDE_PAGER_COMMAND_FIFO", p.fifo_path)
    ∷ []

-- What a reader of the pager's lines relies on.
pub record IsReadable (p : Pager) : Type 0 where
  pub names : All IsName (names_of p)
  pub fits : length (names_text p.workspace_count true p.workspaces) < state_line_len
  pub current : IsValue p.current_workspace
  pub fifo : IsValue p.fifo_path

-- What the panel makes of a pager's state.
abbrev shows : Pager → Workspaces → Workspaces
shows p w = record w {
  workspaces = written (names_of p) w.workspaces;
  workspace_count = p.workspace_count;
  current_workspace = p.current_workspace;
}

names-Lacks :
    (c n : ℕ) (first : Bool) (ws : List Workspace)
    → (b',' == c) ≡ false
    → ((s : Bytes) → IsName s → Lacks c s)
    → Live occupant n ws
    → All IsName (names_in n ws)
    → Lacks c (names_text n first ws)
unfolding names_text
names-Lacks c zero first ws d k l a = tt
names-Lacks c (suc n) first [] d k l a = tt
names-Lacks c (suc n) true (w ∷ ws) d k l a =
    rw (l.0, names_text)
      (Lacks-append c w.name (names_text n false ws) (k w.name a.0)
        (names-Lacks c n false ws d k l.1 a.1))
names-Lacks c (suc n) false (w ∷ ws) d k l a =
    rw (l.0, names_text)
      (Lacks-append c (b',' ∷ w.name) (names_text n false ws) (d, k w.name a.0)
        (names-Lacks c n false ws d k l.1 a.1))

settings-IsSetting :
    (p : Pager)
    → Live occupant p.workspace_count p.workspaces
    → IsReadable p
    → All IsSetting (settings p)
settings-IsSetting p l r =
    let ws = p.workspaces in
    let n = p.workspace_count in
    let names : IsValue (names_text n true ws) = (
      names-Lacks b'\n' n true ws refl (λ s h. (name-IsValue s h).0) l r.names,
      names-Lacks b'\r' n true ws refl (λ s h. (name-IsValue s h).1) l r.names,
    ) in
    let count : IsValue (decimal n) = (decimal-Lacks b'\n' n refl, decimal-Lacks b'\r' n refl) in
    (
      (ground arith, names),
      ((ground arith, count), ((ground arith, r.current), ((ground arith, r.fifo), tt))),
    )

write_workspaces_state-lines_text : (p : Pager) → write_workspaces_state p ≡ lines_text (settings p)
unfolding write_workspaces_state
write_workspaces_state-lines_text p =
    let fifo = line (codes "NSCDE_PAGER_COMMAND_FIFO") p.fifo_path in
    ap
      (λ last.
        line (codes "NSCDE_WORKSPACES") (names_text p.workspace_count true p.workspaces)
        ++ (line (codes "NSCDE_WORKSPACE_COUNT") (decimal p.workspace_count)
            ++ (line (codes "NSCDE_CURRENT_WORKSPACE") p.current_workspace ++ last)))
      (sym (append-nil fifo))

parse_names-shows :
    (p : Pager) (w : Workspaces)
    → IsPager p
    → IsReadable p
    → parse_names (names_text p.workspace_count true p.workspaces) w ≡ record w {
      workspaces = written (names_of p) w.workspaces;
      workspace_count = p.workspace_count;
    }
unfolding parse_names comma_parts
parse_names-shows p w v r =
    let text = names_text p.workspace_count true p.workspaces in
    let whole : non_empty (split b',' (clip state_line_len text)) ≡ names_of p =
      ap (λ s. non_empty (split b',' s)) (clip_of_length-lt state_line_len text r.fits)
      ∙ tokens-names_text p.workspace_count p.workspaces v.live r.names in
    let count = length-names_in p.workspace_count p.workspaces v.live in
    let read : take max_workspaces (non_empty (split b',' (clip state_line_len text)))
        ≡ names_of p =
      ap (take max_workspaces) whole ∙ take_all max_workspaces (names_of p) (rw count v.counted) in
    ap (λ toks. record w { workspaces = written toks w.workspaces; workspace_count = length toks })
      read
    ∙ ap (λ n. record w { workspaces = written (names_of p) w.workspaces; workspace_count = n })
        count

pub parse_workspaces-shows :
    (p : Pager) (w : Workspaces)
    → IsPager p
    → IsReadable p
    → parse_workspaces (write_workspaces_state p) w ≡ shows p w
unfolding parse_workspaces parse_workspaces_settings parse_workspaces_setting equal
parse_workspaces-shows p w v r =
    ap (λ s. parse_workspaces_settings (env_settings s) w) (write_workspaces_state-lines_text p)
    ∙ ap (λ kvs. parse_workspaces_settings kvs w)
        (env_settings-lines_text (settings p) (settings-IsSetting p v.live r))
    ∙ ap
        (λ (u : Workspaces). record u { current_workspace = clip max_name_len p.current_workspace })
        (parse_names-shows p w v r)
    ∙ ap (λ s. record (shows p w) { current_workspace = s })
        (clip_of_length-lt max_name_len p.current_workspace v.current)

-- For a valid pager whose workspaces' names are not empty, begin with no space and hold no
-- comma and no line break, whose current workspace and FIFO path hold no line break, and whose
-- joined names are shorter than 1024 bytes, the panel that parses the state written by the
-- pager into its 32 slots shows the names of the pager's workspaces in order, and has its
-- current workspace.
pub shown-names_of :
    (p : Pager) (w : Workspaces)
    → IsPager p
    → IsReadable p
    → length w.workspaces ≡ max_workspaces
    → (shown (parse_workspaces (write_workspaces_state p) w) ≡ names_of p)
      × ((parse_workspaces (write_workspaces_state p) w).current_workspace ≡ p.current_workspace)
shown-names_of p w v r n =
    let count = length-names_in p.workspace_count p.workspaces v.live in
    let same = parse_workspaces-shows p w v r in
    (
      ap shown same
          ∙ ap (λ k. map (λ (b : Button). b.name) (take k (written (names_of p) w.workspaces)))
              (sym count)
          ∙ shown-written (names_of p) w.workspaces r.names
              (fitting p.workspace_count p.workspaces v.names) (omega (arith, n, count, v.counted)),
      ap (λ (u : Workspaces). u.current_workspace) same,
    )
