-- ===== src/Panel/Theme.antt =====
-- The panel's label and colours: `parse_hex_color` and `parse_env_contents` of
-- src/nscde_paneld/nscde_paneld.c.
use orca_cde.Panel.Settings.{Setting, env_settings}
use orca_cde.Panel.Workspaces.{Workspaces, max_name_len, parse_workspaces_setting}
use orca_cde.Prelude.Int.{ℤ, pos, negsuc}
use orca_cde.Prelude.{
  ℕ, zero, suc, ◌-◌, ◌*◌, ◌<◌, ◌&&◌, ◌||◌, Option, none, some, List, [], ◌∷◌, ◌++◌, ◌≡◌, ◌∙◌, arith,
  ◌==◌, ltb, if◌then◌else◌, length, length-append, length-take-le, length-clip-lt, length-modify,
  take, drop, modify, Bytes, codes, starts_with, equal, clip, atoi, if_either,
}

-- The size of `right_label`.
abbrev pub label_len : ℕ
label_len = max_name_len * 2

-- A colour, each part over 255.
pub record Color : Type 0 where
  pub red : ℕ
  pub green : ℕ
  pub blue : ℕ

-- What `parse_env_contents` sets apart from the workspaces.
pub record Theme : Type 0 where
  pub right_label : Bytes
  pub palette_slots : List Color
  pub fp_variant : ℤ

-- `strncat(label, text, size - strlen(label) - 1)`
unfoldable pub strncat : ℕ → Bytes → Bytes → Bytes
strncat size label text = label ++ take (size - length label - 1) text

-- The slot of a palette entry: its number is between 1 and `size`.
abbrev pub slot_in : ℕ → ℤ → Option ℕ
slot_in size (pos zero) = none
slot_in size (pos (suc i)) = if ltb i size then some i else none
slot_in size (negsuc n) = none

-- The label fits its buffer, and there are eight colours.
pub record IsTheme (t : Theme) : Type 0 where
  pub label : length t.right_label < label_len
  pub slots : length t.palette_slots ≡ 8

abbrev pub with_variant : ℤ → Theme → Theme
with_variant (pos v) t = if (v == 5) || (v == 8) then record t { fp_variant = pos v } else t
with_variant (negsuc v) t = t

-- `scan` is `sscanf` with the format "%02x%02x%02x", where it reads all three numbers.
module _ (scan : Bytes → Option Color) where
  unfoldable pub parse_hex_color : Bytes → Option Color
  parse_hex_color [] = none
  parse_hex_color (c ∷ s) = if (c == b'#') && (length (c ∷ s) == 7) then scan s else none

  abbrev pub with_color : Option ℕ → Option Color → Theme → Theme
  with_color (some i) (some color) t = record t {
    palette_slots = modify t.palette_slots i (λ old. color);
  }
  with_color _ _ t = t

  unfoldable pub parse_theme_setting : Setting → Theme → Theme
  parse_theme_setting (key, val) t =
      if equal key (codes "NSCDE_BACKEND")
      then record t { right_label = clip label_len (codes "Backend: " ++ val) }
      else if equal key (codes "NSCDE_THEME_NAME")
      then record t {
        right_label =
            strncat label_len t.right_label (clip max_name_len (codes "  Theme: " ++ val));
      }
      else if equal key (codes "NSCDE_CURRENT_WORKSPACE") || equal key (codes "NSCDE_WORKSPACES")
      then t
      else if starts_with (codes "NSCDE_PALETTE_") key
      then with_color (slot_in 8 (atoi (drop 14 key))) (parse_hex_color val) t
      else if equal key (codes "NSCDE_FP_VARIANT")
      then with_variant (atoi val) t
      else t

  -- One setting, for the workspaces as `parse_workspaces_env_contents` takes it.
  unfoldable pub parse_env_settings : List Setting → Theme × Workspaces → Theme × Workspaces
  parse_env_settings [] s = s
  parse_env_settings (kv ∷ kvs) (t, w) =
      parse_env_settings kvs (parse_theme_setting kv t, parse_workspaces_setting kv w)

  -- The state after contents that could be copied.
  unfoldable pub parse_env : Bytes → Theme × Workspaces → Theme × Workspaces
  parse_env contents (t, w) =
      parse_env_settings (env_settings contents)
        (record t { right_label = clip label_len (codes "Backend: labwc") }, w)

  strncat-fits :
      (size : ℕ) (label text : Bytes)
      → length label < size
      → length (strncat size label text) < size
  unfolding strncat
  strncat-fits size label text h =
      let both = length-append label (take (size - length label - 1) text) in
      let rest = length-take-le (size - length label - 1) text in omega (arith, h, both, rest)

  relabelled-IsTheme :
      (label : Bytes) (t : Theme)
      → length label < label_len
      → IsTheme t
      → IsTheme (record t { right_label = label })
  relabelled-IsTheme label t h v = record { label = h; slots = v.slots }

  color-IsTheme :
      (o : Option ℕ) (c : Option Color) (t : Theme) → IsTheme t → IsTheme (with_color o c t)
  color-IsTheme none c t v = v
  color-IsTheme (some i) none t v = v
  color-IsTheme (some i) (some c) t v = record {
    label = v.label;
    slots = length-modify t.palette_slots i (λ old. c) ∙ v.slots;
  }

  variant-IsTheme : (n : ℤ) (t : Theme) → IsTheme t → IsTheme (with_variant n t)
  variant-IsTheme (pos n) t v =
      if_either IsTheme ((n == 5) || (n == 8)) (record { label = v.label; slots = v.slots }) v
  variant-IsTheme (negsuc n) t v = v

  setting-IsTheme : (kv : Setting) (t : Theme) → IsTheme t → IsTheme (parse_theme_setting kv t)
  unfolding parse_theme_setting
  setting-IsTheme (key, val) t v =
      if_either IsTheme (equal key (codes "NSCDE_BACKEND"))
        (relabelled-IsTheme _ t (length-clip-lt label_len _ (omega arith)) v)
        (if_either IsTheme (equal key (codes "NSCDE_THEME_NAME"))
          (relabelled-IsTheme _ t (strncat-fits label_len t.right_label _ v.label) v)
          (if_either IsTheme
            (equal key (codes "NSCDE_CURRENT_WORKSPACE") || equal key (codes "NSCDE_WORKSPACES")) v
            (if_either IsTheme (starts_with (codes "NSCDE_PALETTE_") key)
              (color-IsTheme (slot_in 8 (atoi (drop 14 key))) (parse_hex_color val) t v)
              (if_either IsTheme (equal key (codes "NSCDE_FP_VARIANT"))
                (variant-IsTheme (atoi val) t v) v))))

  settings-IsTheme :
      (kvs : List Setting) (t : Theme) (w : Workspaces)
      → IsTheme t
      → IsTheme (parse_env_settings kvs (t, w)).0
  unfolding parse_env_settings
  settings-IsTheme [] t w v = v
  settings-IsTheme (kv ∷ kvs) t w v =
      settings-IsTheme kvs (parse_theme_setting kv t) (parse_workspaces_setting kv w)
        (setting-IsTheme kv t v)

  -- Whatever the contents for the panel and the label before, where there are eight colours,
  -- parsing leaves a label shorter than its 512 bytes, with the appended theme too, and eight
  -- colours.
  pub parse_env-IsTheme :
      (contents : Bytes) (t : Theme) (w : Workspaces)
      → length t.palette_slots ≡ 8
      → IsTheme (parse_env contents (t, w)).0
  unfolding parse_env
  parse_env-IsTheme contents t w h =
      settings-IsTheme (env_settings contents) _ w
        (record { label = length-clip-lt label_len _ (omega arith); slots = h })
