-- ===== src/Tests.antt =====
-- Runs of the program's operations on concrete data, and the theorems applied to them.
mod Streams
mod Caches
mod Wire
mod Pagers
mod Reactors
mod Layouts
mod Toplevels
mod Panels
mod Screens
mod Backdrops
use orca_cde.Prelude.{ℕ, Bool, true, List, [], ◌∷◌, Bytes, codes, refl}
use orca_cde.Runtime.Buffer.Bounds.{Grants}
use orca_cde.Runtime.Subscription.{Outcome, interrupted, returns, chunk, Socket}

-- A machine on which every request for memory is granted.
abbrev pub plenty : ℕ → Bool
plenty n = true

pub plenty-Grants : Grants plenty
plenty-Grants n = refl

-- The schedule that delivers a text in one chunk, behind an interrupted call.
abbrev pub delivering : Bytes → Socket → Socket
delivering [] later = later
delivering (b ∷ bytes) later = interrupted ∷ returns (chunk b bytes) ∷ later
