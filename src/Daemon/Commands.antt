-- ===== src/Daemon/Commands.antt =====
-- The commands in a FIFO: the loop of `process_fifo_commands` in src/nscde_pagerd/nscde_pagerd.c and
-- src/nscde_toplevel/nscde_toplevel.c.
use orca_cde.Prelude.{
  ℕ, List, [], ◌∷◌, ◌≡◌, refl, sym, ap, ◌∙◌, Bytes, Lacks, Token, split, split-append, render, All,
  until_zero, until_zero-Lacks,
}
use orca_cde.Runtime.Subscription.{Received, chunk}

-- `while (line && *line)`: an empty line ends the loop.
unfoldable pub until_empty : List Bytes → List Bytes
until_empty [] = []
until_empty ([] ∷ ls) = []
until_empty ((c ∷ l) ∷ ls) = (c ∷ l) ∷ until_empty ls

-- The lines that the loop goes through, for a buffer of one `read`.
unfoldable pub command_lines : Received → List Bytes
unfolding until_zero until_empty
command_lines (chunk b bytes) = until_empty (split b'\n' (until_zero (b ∷ bytes)))
command_lines _ = []

until_empty-render :
    (ls : List Bytes) → All (Token b'\n') ls → until_empty (split b'\n' (render b'\n' ls)) ≡ ls
unfolding render until_empty split
until_empty-render [] h = refl
until_empty-render ([] ∷ ls) h = cc (h.0.0)
until_empty-render ((c ∷ l) ∷ ls) h =
    rw (split-append b'\n' (c ∷ l) (render b'\n' ls) h.0.1)
      (ap ((c ∷ l) ∷◌) (until_empty-render ls h.1))

-- Commands written with a newline behind each are all gone through.
pub command_lines-render :
    (ls : List Bytes) {b : ℕ} {bytes : Bytes}
    → All (Token b'\n') ls
    → Lacks 0 (render b'\n' ls)
    → render b'\n' ls ≡ b ∷ bytes
    → command_lines (chunk b bytes) ≡ ls
unfolding command_lines
command_lines-render ls {b} {bytes} h z e =
    ap (λ s. until_empty (split b'\n' (until_zero s))) (sym e)
    ∙ ap (λ s. until_empty (split b'\n' s)) (until_zero-Lacks (render b'\n' ls) z)
    ∙ until_empty-render ls h
