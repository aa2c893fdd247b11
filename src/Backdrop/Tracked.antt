-- ===== src/Backdrop/Tracked.antt =====
-- The swaybg processes and the array that src/nscde_backdropd/nscde_backdropd.c tracks them in.
use orca_cde.Backdrop.{max_outputs, Process, Values, Child, Backdrop, arguments}
use orca_cde.Backdrop.Processes.{
  Output, Answers, vacated, clear_output_targets, head_changed, set_default_output, tracks,
  survivors, stop_swaybg_processes, names_of, with_names, refresh_output_targets, has_background,
  write_backdrops_env, born, spawn, spawn_swaybg_processes, restart_backdrop_processes,
}
use orca_cde.Backdrop.Updates.{
  values_in, copied, apply_backdrop_values, apply_backdrop_contents, backdrop_contents_changed,
  is_update, handle_runtime_frame,
}
use orca_cde.Prelude.{
  ℕ, zero, suc, true, false, ◌&&◌, Option, none, some, List, [], ◌∷◌, ◌++◌, ◌≡◌, refl, ap, ◌∙◌, inl,
  inr, arith, map, take, Bytes, codes, is_nil, equal, All, Bool-cases, Option-cases, if_either,
}
use orca_cde.Runtime.Frame.{Frame}

-- The children that the processes stand for.
unfoldable pub children_of : Values → List Process → List Child
children_of v [] = []
children_of v (p ∷ ps) = born p.pid (arguments v p) ++ children_of v ps

-- Just those run.
unfoldable pub IsShown : Backdrop → Type 0
IsShown b = b.children ≡ children_of b.values (take b.process_count b.processes)

abbrev Tracked : List Process → Child → Type 0
Tracked ps c = tracks ps c.0 ≡ true

Tracked-later :
    (p : Process) (ps : List Process) (cs : List Child)
    → All (Tracked ps) cs
    → All (Tracked (p ∷ ps)) cs
Tracked-later p ps [] h = tt
Tracked-later p ps (c ∷ cs) h = (ground (arith, h.0), Tracked-later p ps cs h.1)

All-born :
    (p : Process) (ps : List Process) (v : Values) (o : Option ℕ) (cs : List Child)
    → p.pid ≡ o
    → All (Tracked (p ∷ ps)) cs
    → All (Tracked (p ∷ ps)) (born o (arguments v p) ++ cs)
All-born p ps v none cs e h = h
All-born p ps v (some n) cs e h = (ground (arith, e), h)

children_of-Tracked : (v : Values) (ps : List Process) → All (Tracked ps) (children_of v ps)
unfolding children_of
children_of-Tracked v [] = tt
children_of-Tracked v (p ∷ ps) =
    All-born p ps v p.pid (children_of v ps) refl
      (Tracked-later p ps (children_of v ps) (children_of-Tracked v ps))

survivors-Tracked :
    (ps : List Process) (cs : List Child) → All (Tracked ps) cs → survivors ps cs ≡ []
unfolding survivors
survivors-Tracked ps [] h = refl
survivors-Tracked ps (c ∷ cs) h = rw (h.0, survivors) (survivors-Tracked ps cs h.1)

-- Stopping what is shown leaves no child.
stopped-children : (b : Backdrop) → IsShown b → (stop_swaybg_processes b).children ≡ []
unfolding stop_swaybg_processes IsShown
stopped-children b h =
    ap (survivors (take b.process_count b.processes)) h
    ∙ survivors-Tracked _ _ (children_of-Tracked b.values (take b.process_count b.processes))

abbrev IsIdle : Process → Type 0
IsIdle p = p.pid ≡ none

vacated-IsIdle : (ps : List Process) → All IsIdle (map vacated ps)
vacated-IsIdle [] = tt
vacated-IsIdle (p ∷ ps) = (refl, vacated-IsIdle ps)

with_names-IsIdle :
    (names : List Bytes) (ps : List Process) → All IsIdle ps → All IsIdle (with_names names ps)
unfolding with_names
with_names-IsIdle [] ps h = h
with_names-IsIdle (name ∷ names) [] h = tt
with_names-IsIdle (name ∷ names) (p ∷ ps) h = (refl, with_names-IsIdle names ps h.1)

head-IsIdle :
    (f : Process → Process) (ps : List Process)
    → ((p : Process) → IsIdle p → IsIdle (f p))
    → All IsIdle ps
    → All IsIdle (head_changed f ps)
head-IsIdle f [] k h = tt
head-IsIdle f (p ∷ ps) k h = (k p h.0, h.1)

default-IsIdle : (b : Backdrop) → All IsIdle (set_default_output b).processes
unfolding set_default_output clear_output_targets
default-IsIdle b = head-IsIdle _ (map vacated b.processes) (λ p e. e) (vacated-IsIdle b.processes)

-- The outputs change neither the children nor the values.
record IsAimed (b c : Backdrop) : Type 0 where
  idle : All IsIdle c.processes
  same_children : c.children ≡ b.children
  same_values : c.values ≡ b.values

refresh-IsAimed : (o : Option (List Output)) (b : Backdrop) → IsAimed b (refresh_output_targets o b)
unfolding refresh_output_targets set_default_output clear_output_targets
refresh-IsAimed none b = record {
  idle = default-IsIdle (clear_output_targets b);
  same_children = refl;
  same_values = refl;
}
refresh-IsAimed (some outputs) b =
    let names = take max_outputs (names_of outputs) in
    if_either (IsAimed b) (is_nil names)
      (record {
        idle = default-IsIdle (clear_output_targets b);
        same_children = refl;
        same_values = refl;
      })
      (record {
        idle = with_names-IsIdle names (map vacated b.processes) (vacated-IsIdle b.processes);
        same_children = refl;
        same_values = refl;
      })

-- What is started are the children that the processes stand for.
spawn-children_of :
    (fork : ℕ → Option ℕ) (v : Values) (i n : ℕ) (ps : List Process)
    → All IsIdle ps
    → (spawn fork v i n ps).1 ≡ children_of v (take n (spawn fork v i n ps).0)
unfolding spawn children_of arguments
spawn-children_of fork v i zero ps h = refl
spawn-children_of fork v i (suc n) [] h = refl
spawn-children_of fork v i (suc n) (p ∷ ps) h = elim (Option-cases (fork i)) [
  | inl e ↦ rw e (rw (h.0) (spawn-children_of fork v (suc i) n ps h.1))
  | inr (pid, e) ↦ rw e (ap ((pid, arguments v p) ∷◌) (spawn-children_of fork v (suc i) n ps h.1))
]

spawned-IsShown :
    (fork : ℕ → Option ℕ) (b : Backdrop)
    → All IsIdle b.processes
    → b.children ≡ []
    → has_background b.values ≡ true
    → IsShown (spawn_swaybg_processes fork b)
unfolding spawn_swaybg_processes IsShown
spawned-IsShown fork b h e v = rw v (
    ap (λ cs. cs ++ (spawn fork b.values 0 b.process_count b.processes).1) e
    ∙ spawn-children_of fork b.values 0 b.process_count b.processes h)

stop-values : (b : Backdrop) → (stop_swaybg_processes b).values ≡ b.values
unfolding stop_swaybg_processes
stop-values b = refl

-- Without an image and a colour nothing is started.
unspawned-IsShown :
    (a : Answers) (b : Backdrop)
    → has_background b.values ≡ false
    → b.children ≡ []
    → IsShown
        (spawn_swaybg_processes a.fork (write_backdrops_env a.writable (clear_output_targets b)))
unfolding spawn_swaybg_processes write_backdrops_env clear_output_targets IsShown children_of
unspawned-IsShown a b v gone = rw v gone

restart-IsShown :
    (a : Answers) (b : Backdrop)
    → (stop_swaybg_processes b).children ≡ []
    → IsShown (restart_backdrop_processes a b)
unfolding restart_backdrop_processes write_backdrops_env
restart-IsShown a b gone = elim (Bool-cases (has_background b.values)) [
  | inl v ↦
      let idle = stop_swaybg_processes b in
      let r = refresh-IsAimed a.outputs idle in
      rw (v, restart_backdrop_processes)
        (spawned-IsShown a.fork
          (write_backdrops_env a.writable (refresh_output_targets a.outputs idle)) r.idle
          (r.same_children ∙ gone) (ap has_background (r.same_values ∙ stop-values b) ∙ v))
  | inr v ↦
      rw (v, restart_backdrop_processes)
        (unspawned-IsShown a (stop_swaybg_processes b) (ap has_background (stop-values b) ∙ v) gone)
]

apply-IsShown :
    (a : Answers) (v : Values) (b : Backdrop) → IsShown b → IsShown (apply_backdrop_values a v b)
unfolding apply_backdrop_values stop_swaybg_processes
apply-IsShown a v b h = restart-IsShown a (record b { values = copied v }) (stopped-children b h)

-- Where the daemon's children are just the swaybg processes that its array stands for, each
-- started with the arguments for the values shown and its output, so it is after any frame of
-- the runtime, whichever forks fail and whatever the outputs are: no process of earlier values
-- is left.
pub handle_runtime_frame-IsShown :
    (a : Answers) (frame : Frame) (b : Backdrop)
    → IsShown b
    → IsShown (handle_runtime_frame a frame b)
unfolding handle_runtime_frame apply_backdrop_contents
handle_runtime_frame-IsShown a frame b h = elim (Option-cases frame.contents) [
  | inl e ↦ rw (e, handle_runtime_frame) h
  | inr (contents, e) ↦
      rw (e, handle_runtime_frame)
        (if_either IsShown
          ((is_update frame.type && equal frame.topic (codes "backdrops"))
            && backdrop_contents_changed contents b)
          (apply-IsShown a (values_in contents) b h) h)
]
