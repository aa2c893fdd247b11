-- ===== src/Panel/Settings/Lines.antt =====
-- The lines that the daemons write, in the parsers' loop of src/nscde_paneld/nscde_paneld.c.
use orca_cde.Daemon.Lines.{line}
use orca_cde.Panel.Settings.{Setting, strip_returns, setting_of, or_skip, settings_of, env_settings}
use orca_cde.Prelude.{
  ℕ, false, some, List, [], ◌∷◌, ◌++◌, ◌≡◌, refl, sym, ap, ◌∙◌, arith, ◌==◌, map, append_assoc,
  Bytes, Lacks, Lacks-append, Token, cut, tokens, tokens-render, render, All,
}

-- The lines of settings, one behind the other.
abbrev pub lines_text : List Setting → Bytes
lines_text [] = []
lines_text ((key, val) ∷ kvs) = line key val ++ lines_text kvs

-- A key that no comment and no other setting is taken for.
abbrev pub IsKey : Bytes → Type 0
IsKey [] = ⊥
IsKey (c ∷ s) =
    ((c == b'#') ≡ false) × Lacks b'=' (c ∷ s) × Lacks b'\n' (c ∷ s) × Lacks b'\r' (c ∷ s)

-- A value that stays on its line.
abbrev pub IsValue : Bytes → Type 0
IsValue val = Lacks b'\n' val × Lacks b'\r' val

abbrev pub IsSetting : Setting → Type 0
IsSetting kv = IsKey kv.0 × IsValue kv.1

abbrev bare : Setting → Bytes
bare kv = kv.0 ++ (b'=' ∷ kv.1)

lines_text-render : (kvs : List Setting) → lines_text kvs ≡ render b'\n' (map bare kvs)
unfolding render
lines_text-render [] = refl
lines_text-render ((key, val) ∷ kvs) =
    append_assoc key (b'=' ∷ (val ++ (b'\n' ∷ []))) (lines_text kvs)
    ∙ ap (λ s. key ++ (b'=' ∷ s)) (append_assoc val (b'\n' ∷ []) (lines_text kvs))
    ∙ sym (append_assoc key (b'=' ∷ val) (b'\n' ∷ lines_text kvs))
    ∙ ap (λ s. (key ++ (b'=' ∷ val)) ++ (b'\n' ∷ s)) (lines_text-render kvs)

bare-Token : (key val : Bytes) → IsKey key → IsValue val → Token b'\n' (bare (key, val))
bare-Token [] val k v = absurd k
bare-Token (c ∷ s) val k v = (refl, Lacks-append b'\n' (c ∷ s) (b'=' ∷ val) k.2 (refl, v.0))

lines-Token : (kvs : List Setting) → All IsSetting kvs → All (Token b'\n') (map bare kvs)
lines-Token [] h = tt
lines-Token ((key, val) ∷ kvs) h = (bare-Token key val h.0.0 h.0.1, lines-Token kvs h.1)

strip_returns-Lacks : (s : Bytes) → Lacks b'\r' s → strip_returns s ≡ s
unfolding strip_returns
strip_returns-Lacks [] h = refl
strip_returns-Lacks (c ∷ s) h = ground (arith, h.0, strip_returns-Lacks s h.1)

cut-append : (c : ℕ) (p s : Bytes) → Lacks c p → cut c (p ++ (c ∷ s)) ≡ (p, some s)
unfolding cut
cut-append c [] s h = ground arith
cut-append c (x ∷ p) s h = ground (arith, h.0, cut-append c p s h.1)

setting_of-bare : (key val : Bytes) → IsKey key → setting_of (bare (key, val)) ≡ some (key, val)
unfolding setting_of
setting_of-bare [] val k = absurd k
setting_of-bare (c ∷ s) val k = ground (arith, k.0, cut-append b'=' (c ∷ s) val k.1)

strip_returns-bare :
    (key val : Bytes) → IsKey key → IsValue val → strip_returns (bare (key, val)) ≡ bare (key, val)
strip_returns-bare [] val k v = absurd k
strip_returns-bare (c ∷ s) val k v =
    strip_returns-Lacks (bare (c ∷ s, val))
      (Lacks-append b'\r' (c ∷ s) (b'=' ∷ val) k.3 (refl, v.1))

settings_of-bare : (kvs : List Setting) → All IsSetting kvs → settings_of (map bare kvs) ≡ kvs
unfolding settings_of
settings_of-bare [] h = refl
settings_of-bare ((key, val) ∷ kvs) h =
    ap (λ l. or_skip (setting_of l) (settings_of (map bare kvs)))
      (strip_returns-bare key val h.0.0 h.0.1)
    ∙ ap (λ o. or_skip o (settings_of (map bare kvs))) (setting_of-bare key val h.0.0)
    ∙ ap ((key, val) ∷◌) (settings_of-bare kvs h.1)

-- Settings that the daemons' lines are written for, with keys that are not empty, do not begin
-- with a number sign and hold no equals sign and no line break, and values that hold no line
-- break, are the settings that the panel reads back, in order.
pub env_settings-lines_text :
    (kvs : List Setting) → All IsSetting kvs → env_settings (lines_text kvs) ≡ kvs
unfolding env_settings
env_settings-lines_text kvs h =
    ap (λ s. settings_of (tokens b'\n' s)) (lines_text-render kvs)
    ∙ ap settings_of (tokens-render b'\n' (map bare kvs) (lines-Token kvs h))
    ∙ settings_of-bare kvs h
