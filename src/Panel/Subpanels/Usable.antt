-- ===== src/Panel/Subpanels/Usable.antt =====
-- The counts of `parse_subpanel_env_contents` and the subpanels of launchers, of
-- src/nscde_paneld/nscde_paneld.c.
use orca_cde.Panel.Settings.{Setting, env_settings}
use orca_cde.Panel.Theme.{slot_in}
use orca_cde.Panel.Subpanels.{
  max_subpanel_entries, max_subpanels, Subpanel, Seen, cleared, is_usable, behind_underscore,
  with_entry_count, entry_at, with_entry, with_field, stored, with_subpanel, numbered, with_key,
  parse_subpanel_setting, parse_subpanel_settings, parse_subpanels, launcher_subpanel,
}
use orca_cde.Prelude.Int.{ℤ, pos, negsuc, ◌≤ℤ◌, ltb_ℤ}
use orca_cde.Prelude.{
  ℕ, zero, suc, ◌<◌, true, ◌&&◌, Option, none, some, List, [], ◌∷◌, ◌≡◌, refl, ap, ◌∙◌, ◌⊎◌, inl,
  inr, arith, leb, if◌then◌else◌, map, length, length-modify, get_elem?, modify, drop, Bytes, codes,
  starts_with, equal, atoi, All, All-modify, Bool-cases, Option-cases, subst, if_either,
}

-- The count of entries is within the array.
abbrev pub IsCounted : Subpanel → Type 0
IsCounted sp =
    (sp.entry_count ≤ℤ pos max_subpanel_entries) × (length sp.entries ≡ max_subpanel_entries)

-- Each subpanel that can be opened has an index below the count.
abbrev pub Covers : List Subpanel → ℕ → Type 0
Covers sps n = (i : ℕ) (sp : Subpanel) → get_elem? sps i ≡ some sp → is_usable sp ≡ true → i < n

pub record IsSeen (s : Seen) : Type 0 where
  pub covers : Covers s.0 s.1
  pub counted : All IsCounted s.0

-- What stands in a slot was put there or was there before.
put-some :
    (sps : List Subpanel) (i j : ℕ) (new : Subpanel) {sp : Subpanel}
    → get_elem? (modify sps i (λ old. new)) j ≡ some sp
    → (i ≡ j) × (new ≡ sp) ⊎ (get_elem? sps j ≡ some sp)
put-some [] i j new h = inr h
put-some (x ∷ sps) zero zero new h = inl (refl, cc)
put-some (x ∷ sps) zero (suc j) new h = inr h
put-some (x ∷ sps) (suc i) zero new h = inr h
put-some (x ∷ sps) (suc i) (suc j) new h = elim (put-some sps i j new h) [
  | inl (e, same) ↦ inl (ap suc e, same)
  | inr before ↦ inr before
]

stored-Covers :
    (i : ℕ) (new : Subpanel) (sps : List Subpanel) (n : ℕ)
    → Covers sps n
    → Covers (modify sps i (λ old. new)) (if is_usable new && leb n i then suc i else n)
stored-Covers i new sps n h j sp at_j usable = elim (put-some sps i j new at_j) [
  | inl (e, same) ↦
      let usable_new : is_usable new ≡ true = ap is_usable same ∙ usable in
      rw usable_new (ground (arith, e))
  | inr before ↦ let below = h j sp before usable in ground (arith, below)
]

-- A subpanel with new entries or another count.
abbrev IsKept : Option Subpanel → Type 0
IsKept none = Unit
IsKept (some sp) = IsCounted sp

entry_at-IsKept :
    (val : Bytes) (o : Option ℕ) (p : Option Bytes) (sp : Subpanel)
    → IsCounted sp
    → IsKept (entry_at val o p sp)
entry_at-IsKept val none p sp h = tt
entry_at-IsKept val (some i) none sp h = tt
entry_at-IsKept val (some i) (some field) sp h = (h.0, length-modify sp.entries i _ ∙ h.1)

with_entry_count-IsCounted :
    (v : ℤ) (sp : Subpanel) → IsCounted sp → IsCounted (with_entry_count v sp)
with_entry_count-IsCounted (pos n) sp h = (ground arith, h.1)
with_entry_count-IsCounted (negsuc n) sp h = (ground arith, h.1)

with_field-IsKept :
    (rest val : Bytes) (sp : Subpanel) → IsCounted sp → IsKept (with_field rest val sp)
unfolding with_field with_entry
with_field-IsKept rest val sp h = if_either IsKept (equal rest (codes "NAME")) h (
    if_either IsKept (equal rest (codes "WIDTH"))
      (if_either IsCounted (ltb_ℤ (pos 0) (atoi val) && ltb_ℤ (atoi val) (pos 1024)) h h)
      (if_either IsKept (equal rest (codes "ENABLED")) h (
        if_either IsKept (equal rest (codes "ENTRY_COUNT"))
          (with_entry_count-IsCounted (atoi val) sp h)
          (if_either IsKept (starts_with (codes "ENTRY_") rest)
            (entry_at-IsKept val (slot_in max_subpanel_entries (atoi (drop 6 rest)))
              (behind_underscore (drop 6 rest)) sp h)
            h))))

stored-IsSeen :
    (i : ℕ) (o : Option Subpanel) (s : Seen) → IsKept o → IsSeen s → IsSeen (stored i o s)
stored-IsSeen i none s k v = v
stored-IsSeen i (some sp) s k v = record {
  covers = stored-Covers i sp s.0 s.1 v.covers;
  counted = All-modify IsCounted s.0 i (λ old. sp) (λ old e h. k) v.counted;
}

All-get_elem? :
    (sps : List Subpanel) (i : ℕ) {sp : Subpanel}
    → All IsCounted sps
    → get_elem? sps i ≡ some sp
    → IsCounted sp
All-get_elem? [] i h e = cc
All-get_elem? (x ∷ sps) zero h e = subst (λ o. IsKept o) e (h.0)
All-get_elem? (x ∷ sps) (suc i) h e = All-get_elem? sps i h.1 e

with_subpanel-IsSeen :
    (rest val : Bytes) (i : ℕ) (s : Seen)
    → IsSeen s
    → IsSeen (with_subpanel rest val i (get_elem? s.0 i) s)
with_subpanel-IsSeen rest val i s v = elim (Option-cases (get_elem? s.0 i)) [
  | inl e ↦ rw (e, with_subpanel) v
  | inr (sp, e) ↦
      rw (e, with_subpanel)
        (stored-IsSeen i (with_field rest val sp) s
          (with_field-IsKept rest val sp (All-get_elem? s.0 i v.counted e)) v)
]

numbered-IsSeen :
    (val : Bytes) (o : Option ℕ) (p : Option Bytes) (s : Seen)
    → IsSeen s
    → IsSeen (numbered val o p s)
numbered-IsSeen val none p s v = v
numbered-IsSeen val (some i) none s v = v
numbered-IsSeen val (some i) (some rest) s v = with_subpanel-IsSeen rest val i s v

settings-IsSeen :
    (kvs : List Setting) (s : Seen) → IsSeen s → IsSeen (parse_subpanel_settings kvs s)
unfolding parse_subpanel_settings parse_subpanel_setting with_key
settings-IsSeen [] s v = v
settings-IsSeen ((key, val) ∷ kvs) s v =
    let p = drop 15 key in
    settings-IsSeen kvs (parse_subpanel_setting (key, val) s) (
      if_either IsSeen (starts_with (codes "NSCDE_SUBPANEL_") key)
        (if_either IsSeen (equal p (codes "COUNT")) v
          (numbered-IsSeen val (slot_in max_subpanels (atoi p)) (behind_underscore p) s v))
        v)

cleared-Covers : (sps : List Subpanel) → Covers (map cleared sps) 0
cleared-Covers [] i sp h u = cc
cleared-Covers (x ∷ sps) zero sp h u = cc
cleared-Covers (x ∷ sps) (suc i) sp h u = absurd (omega (arith, cleared-Covers sps i sp h u))

-- The entries fill their array.
abbrev pub HasEntries : Subpanel → Type 0
HasEntries sp = length sp.entries ≡ max_subpanel_entries

cleared-IsCounted : (sps : List Subpanel) → All HasEntries sps → All IsCounted (map cleared sps)
cleared-IsCounted [] h = tt
cleared-IsCounted (x ∷ sps) h = ((omega arith, h.0), cleared-IsCounted sps h.1)

-- After any contents for the subpanels, where each has its full array of entries before, each
-- still has it and its count of entries is at most the array's 32, and each subpanel that can
-- be opened has an index below the count of subpanels.
pub parse_subpanels-IsSeen :
    (contents : Bytes) (sps : List Subpanel)
    → All HasEntries sps
    → IsSeen (parse_subpanels contents sps)
unfolding parse_subpanels
parse_subpanels-IsSeen contents sps h =
    settings-IsSeen (env_settings contents) (map cleared sps, 0)
      (record { covers = cleared-Covers sps; counted = cleared-IsCounted sps h })

-- The index where the subpanel can be opened.
abbrev pub openable : ℕ → Option Subpanel → Option ℕ
openable i none = none
openable i (some sp) = if is_usable sp then some i else none

-- After any contents for the subpanels, where each has its full array of entries, launcher i +
-- 1 has subpanel i exactly if that subpanel is enabled and has entries; the count of subpanels
-- takes none away.
pub launcher_subpanel-openable :
    (i : ℕ) (contents : Bytes) (sps : List Subpanel)
    → All HasEntries sps
    → launcher_subpanel (suc i) (parse_subpanels contents sps)
      ≡ openable i (get_elem? (parse_subpanels contents sps).0 i)
unfolding launcher_subpanel
launcher_subpanel-openable i contents sps h =
    let s = parse_subpanels contents sps in
    let v = parse_subpanels-IsSeen contents sps h in
    elim (Option-cases (get_elem? s.0 i)) [
      | inl e ↦ rw (e, launcher_subpanel) refl
      | inr (sp, e) ↦ elim (Bool-cases (is_usable sp)) [
        | inl u ↦
            let below = v.covers i sp e u in rw (e, launcher_subpanel) (ground (arith, below, u))
        | inr u ↦ rw (e, launcher_subpanel) (ground (arith, u))
      ]
    ]
