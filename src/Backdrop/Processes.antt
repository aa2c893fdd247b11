-- ===== src/Backdrop/Processes.antt =====
-- Restarting the swaybg processes: `clear_output_targets`, `set_default_output`,
-- `stop_swaybg_processes`, `refresh_output_targets`, `spawn_swaybg_processes`,
-- `write_backdrops_env` and `restart_backdrop_processes` of src/nscde_backdropd/nscde_backdropd.c.
use orca_cde.Backdrop.{max_outputs, value_max_len, Process, Values, Child, Backdrop, arguments}
use orca_cde.Daemon.Lines.{line}
use orca_cde.Prelude.{
  ℕ, zero, suc, Bool, true, false, ◌&&◌, ◌||◌, not, Option, none, some, List, [], ◌∷◌, ◌++◌, ◌==◌,
  if◌then◌else◌, length, map, take, Bytes, codes, is_nil, clip, decimal,
}

-- `struct output_probe_output`, as far as it is read.
pub record Output : Type 0 where
  pub have_name : Bool
  pub name : Bytes

-- What the surroundings answer: the outputs, or `none` where Wayland fails; for each process what
-- `fork` gives; and whether the mirror can be written and renamed.
pub record Answers : Type 0 where
  pub outputs : Option (List Output)
  pub fork : ℕ → Option ℕ
  pub writable : Bool

abbrev pub vacated : Process → Process
vacated p = record p { output_name = []; use_output_arg = false; pid = none }

unfoldable pub clear_output_targets : Backdrop → Backdrop
clear_output_targets b = record b { processes = map vacated b.processes; process_count = 0 }

abbrev pub head_changed : (Process → Process) → List Process → List Process
head_changed f [] = []
head_changed f (p ∷ ps) = f p ∷ ps

unfoldable pub set_default_output : Backdrop → Backdrop
set_default_output b =
    let cleared = clear_output_targets b in
    let default =
      λ (p : Process). record p { output_name = codes "default"; use_output_arg = false } in
    record cleared { processes = head_changed default cleared.processes; process_count = 1 }

abbrev pub has_pid : Option ℕ → ℕ → Bool
has_pid none n = false
has_pid (some m) n = m == n

-- One of the processes has the pid.
abbrev pub tracks : List Process → ℕ → Bool
tracks [] n = false
tracks (p ∷ ps) n = has_pid p.pid n || tracks ps n

-- The children that are left when the processes are killed.
unfoldable pub survivors : List Process → List Child → List Child
survivors ps [] = []
survivors ps (c ∷ cs) = let rest = survivors ps cs in if tracks ps c.0 then rest else c ∷ rest

abbrev pub stopped : Process → Process
stopped p = record p { pid = none }

-- The first `n` processes are stopped.
abbrev pub stop_first : ℕ → List Process → List Process
stop_first zero ps = ps
stop_first (suc n) [] = []
stop_first (suc n) (p ∷ ps) = stopped p ∷ stop_first n ps

unfoldable pub stop_swaybg_processes : Backdrop → Backdrop
stop_swaybg_processes b = record b {
  processes = stop_first b.process_count b.processes;
  children = survivors (take b.process_count b.processes) b.children;
}

-- The outputs that have a name.
unfoldable pub names_of : List Output → List Bytes
names_of [] = []
names_of (o ∷ os) =
    let rest = names_of os in if o.have_name && not (is_nil o.name) then o.name ∷ rest else rest

abbrev pub targeted : Bytes → Process → Process
targeted name p = record p {
  output_name = clip value_max_len name;
  use_output_arg = true;
  pid = none;
}

unfoldable pub with_names : List Bytes → List Process → List Process
with_names [] ps = ps
with_names (name ∷ names) [] = []
with_names (name ∷ names) (p ∷ ps) = targeted name p ∷ with_names names ps

unfoldable pub refresh_output_targets : Option (List Output) → Backdrop → Backdrop
refresh_output_targets none b = set_default_output (clear_output_targets b)
refresh_output_targets (some outputs) b =
    let cleared = clear_output_targets b in
    let names = take max_outputs (names_of outputs) in
    if is_nil names then set_default_output cleared else record cleared {
      processes = with_names names cleared.processes;
      process_count = length names;
    }

abbrev pub has_background : Values → Bool
has_background v = not (is_nil v.image) || not (is_nil v.color)

abbrev pub output_line : Process → Bytes → Bytes → Bytes
output_line p field value =
    line (codes "NSCDE_BACKDROP_OUTPUT_" ++ (p.output_name ++ (b'_' ∷ field))) value

unfoldable pub outputs_text : Values → List Process → Bytes
outputs_text v [] = []
outputs_text v (p ∷ ps) =
    output_line p (codes "IMAGE") v.image
    ++ (output_line p (codes "MODE") v.mode
        ++ (output_line p (codes "COLOR") v.color ++ outputs_text v ps))

unfoldable pub mirror_text : Backdrop → Bytes
mirror_text b =
    let v = b.values in
    let shown = if has_background v then take b.process_count b.processes else [] in
    line (codes "NSCDE_BACKDROP_WORKSPACE") v.workspace
    ++ (line (codes "NSCDE_BACKDROP_DESK") v.desk
        ++ (line (codes "NSCDE_BACKDROP_MODE") v.mode
            ++ (line (codes "NSCDE_BACKDROP_IMAGE_NAME") v.image_name
                ++ (line (codes "NSCDE_BACKDROP_IMAGE") v.image
                    ++ (line (codes "NSCDE_BACKDROP_COLOR") v.color
                        ++ (line (codes "NSCDE_BACKDROP_OUTPUT_COUNT")
                              (decimal (if has_background v then b.process_count else 0))
                            ++ outputs_text v shown))))))

unfoldable pub write_backdrops_env : Bool → Backdrop → Backdrop
write_backdrops_env writable b = record b { mirror = if writable then mirror_text b else b.mirror }

abbrev pub started : Option ℕ → Process → Process
started none p = p
started (some pid) p = record p { pid = some pid }

abbrev pub born : Option ℕ → List Bytes → List Child
born none arguments = []
born (some pid) arguments = (pid, arguments) ∷ []

-- The first `n` processes from index `i` on, each started by a `fork`.
unfoldable pub spawn : (ℕ → Option ℕ) → Values → ℕ → ℕ → List Process → List Process × List Child
spawn fork v i zero ps = (ps, [])
spawn fork v i (suc n) [] = ([], [])
spawn fork v i (suc n) (p ∷ ps) =
    let (later, children) = spawn fork v (suc i) n ps in
    (started (fork i) p ∷ later, born (fork i) (arguments v p) ++ children)

unfoldable pub spawn_swaybg_processes : (ℕ → Option ℕ) → Backdrop → Backdrop
spawn_swaybg_processes fork b =
    let (ps, children) = spawn fork b.values 0 b.process_count b.processes in
    if has_background b.values
    then record b { processes = ps; children = b.children ++ children }
    else b

unfoldable pub restart_backdrop_processes : Answers → Backdrop → Backdrop
restart_backdrop_processes a b =
    let idle = stop_swaybg_processes b in
    let aimed =
      if has_background b.values
      then refresh_output_targets a.outputs idle
      else clear_output_targets idle in
    spawn_swaybg_processes a.fork (write_backdrops_env a.writable aimed)
