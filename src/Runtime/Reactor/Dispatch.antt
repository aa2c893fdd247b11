-- ===== src/Runtime/Reactor/Dispatch.antt =====
-- The rounds of the reactor, `nscde_fd_reactor_run_once` of src/nscde_wayland_common/runtime-client.c,
-- as a step relation.
use orca_cde.Prelude.{
  ℕ, suc, Bool, true, false, Option, none, some, List, [], ◌∷◌, ◌≡◌, ◌⊎◌, inl, inr, refl, ◌==◌,
  get_elem?, Bool-cases, Option-cases, is_nil, arith, subst,
}
use orca_cde.Runtime.Reactor.{
  Watcher, Running, meets, poll_errors, when_ready, handle, handle_at, dispatch, polled,
  reactor_run_once,
}

module _ {ℓ κ} {H : Type ℓ} {U : Type κ} where
  -- What is handed to `poll` for the watchers from slot `i` on: slot, descriptor and events of each
  -- that is active and has a descriptor, in the slots' order.
  pub data Polls : ℕ → List (Watcher H U) → List (ℕ × ℕ × ℕ) → Type (ℓ ⊔ κ) where
    no_more : {i : ℕ} → Polls i [] []
    passed_over :
        {i : ℕ} {w : Watcher H U} {ws : List (Watcher H U)} {ps : List (ℕ × ℕ × ℕ)}
        → (w.active ≡ false) ⊎ (w.fd ≡ none)
        → Polls (suc i) ws ps
        → Polls i (w ∷ ws) ps
    polls :
        {i fd : ℕ} {w : Watcher H U} {ws : List (Watcher H U)} {ps : List (ℕ × ℕ × ℕ)}
        → w.active ≡ true
        → w.fd ≡ some fd
        → Polls (suc i) ws ps
        → Polls i (w ∷ ws) ((i, fd, w.events) ∷ ps)

  -- The events of an error call for the error handler if there is one.
  abbrev pub IsError : Watcher H U → ℕ → H → Type ℓ
  IsError w revents h = (meets revents poll_errors ≡ true) × (w.on_error ≡ some h)

  -- Else an event that the watcher asks for calls for the other handler.
  abbrev pub IsReady : Watcher H U → ℕ → H → Type ℓ
  IsReady w revents h =
      ((meets revents poll_errors ≡ false) ⊎ (w.on_error ≡ none))
      × (meets revents w.events ≡ true)
      × (w.on_ready ≡ some h)

  -- The handler that the events of an active watcher select.
  abbrev pub Selects : Watcher H U → ℕ → H → Type ℓ
  Selects w revents h =
      ((revents == 0) ≡ false) × (w.active ≡ true) × (IsError w revents h ⊎ IsReady w revents h)

  polled-Polls : (i : ℕ) (ws : List (Watcher H U)) → Polls i ws (polled i ws)
  unfolding polled
  polled-Polls i [] = no_more
  polled-Polls i (w ∷ ws) =
      let rest = polled-Polls (suc i) ws in
      elim (Option-cases w.fd) [
        | inl n ↦ subst (Polls i (w ∷ ws)) (ground (arith, n)) (passed_over (inr n) rest)
        | inr (fd, e) ↦ elim (Bool-cases w.active) [
          | inr a ↦ subst (Polls i (w ∷ ws)) (ground (arith, a, e)) (passed_over (inl a) rest)
          | inl a ↦ subst (Polls i (w ∷ ws)) (ground (arith, a, e)) (polls a e rest)
        ]
      ]

module _ {ℓ κ μ} {H : Type ℓ} {U : Type κ} {W : Type μ}
    (call : H → Option ℕ → ℕ → Option U → Running H U W → Running H U W) where
  -- What events of a watcher lead to: a call of the handler that they select, on the watcher's
  -- descriptor and userdata, or nothing where they select none.
  abbrev pub Handles : Watcher H U → ℕ → Running H U W → Running H U W → Type (ℓ ⊔ κ ⊔ μ)
  Handles w revents s s' =
      ((h : H) × Selects w revents h × (s' ≡ call h w.fd revents w.userdata s))
      ⊎ (((h : H) → ¬ Selects w revents h) × (s' ≡ s))

  -- They are handled for the watcher that stands in slot `i` at that time.
  abbrev pub Answers : ℕ → ℕ → Running H U W → Running H U W → Type (ℓ ⊔ κ ⊔ μ)
  Answers i revents s s' =
      ((w : Watcher H U) × (get_elem? s.watchers i ≡ some w) × Handles w revents s s')
      ⊎ ((get_elem? s.watchers i ≡ none) × (s' ≡ s))

  -- Each polled watcher in turn is given the events that are its own.
  pub data Round
      : List (ℕ × ℕ × ℕ) → List ℕ → Running H U W → Running H U W → Type (ℓ ⊔ κ ⊔ μ) where
    over : {results : List ℕ} {s : Running H U W} → Round [] results s s
    unanswered : {ps : List (ℕ × ℕ × ℕ)} {s : Running H U W} → Round ps [] s s
    answered :
        {i fd events revents : ℕ} {ps : List (ℕ × ℕ × ℕ)} {results : List ℕ}
        {s s' s'' : Running H U W}
        → Answers i revents s s'
        → Round ps results s' s''
        → Round ((i, fd, events) ∷ ps) (revents ∷ results) s s''

  -- False with the reactor as it was, where nothing is polled or `poll` gives no events, or true
  -- behind the round for the events that it gives.
  abbrev pub RunsOnce :
      (List (ℕ × ℕ × ℕ) → Option (List ℕ)) → Running H U W → Bool × Running H U W → Type (ℓ ⊔ κ ⊔ μ)
  RunsOnce poll s (done, s') =
      (ps : List (ℕ × ℕ × ℕ)) × Polls 0 s.watchers ps
      × (((done ≡ false) × (s' ≡ s) × ((ps ≡ []) ⊎ (poll ps ≡ none)))
          ⊎ ((results : List ℕ) × (poll ps ≡ some results) × (done ≡ true) × Round ps results s s'))

  module _ (s : Running H U W) (w : Watcher H U) (revents : ℕ) where
    when_ready-Handles :
        (revents == 0) ≡ false
        → w.active ≡ true
        → (meets revents poll_errors ≡ false) ⊎ (w.on_error ≡ none)
        → Handles w revents s (when_ready call w revents s)
    when_ready-Handles z a n = elim (Option-cases w.on_ready) [
      | inl r ↦ inr (λ h. not_ready n (λ o. cc (r, o.2)), ground (arith, r))
      | inr (h, e) ↦ elim (Bool-cases (meets revents w.events)) [
        | inr m ↦ inr (λ h'. not_ready n (λ o. cc (m, o.1)), ground (arith, e, m))
        | inl m ↦ inl (h, (z, a, inr (n, m, e)), ground (arith, e, m))
      ]
    ]
      where
        not_ready :
            {h : H}
            → (meets revents poll_errors ≡ false) ⊎ (w.on_error ≡ none)
            → (¬ IsReady w revents h)
            → ¬ Selects w revents h
        not_ready n r (z, a, inr o) = r o
        not_ready (inl n) r (z, a, inl o) = cc (n, o.0)
        not_ready (inr n) r (z, a, inl o) = cc (n, o.1)

    handle-Handles : Handles w revents s (handle call w revents s)
    handle-Handles = elim (Bool-cases (revents == 0)) [
      | inl z ↦ inr (λ h c. cc (z, c.0), ground (arith, z))
      | inr z ↦ elim (Bool-cases w.active) [
        | inr a ↦ inr (λ h c. cc (a, c.1), ground (arith, a))
        | inl a ↦ elim (Bool-cases (meets revents poll_errors)) [
          | inr m ↦
              subst (Handles w revents s) (ground (arith, z, a, m)) (when_ready-Handles z a (inl m))
          | inl m ↦ elim (Option-cases w.on_error) [
            | inl n ↦
                subst (Handles w revents s) (ground (arith, z, a, m, n))
                  (when_ready-Handles z a (inr n))
            | inr (h, e) ↦ inl (h, (z, a, inl (m, e)), ground (arith, z, a, m, e))
          ]
        ]
      ]
    ]

  handle_at-Answers :
      (s : Running H U W) (i revents : ℕ) → Answers i revents s (handle_at call i revents s)
  handle_at-Answers s i revents = elim (Option-cases (get_elem? s.watchers i)) [
    | inl n ↦ rw (n, handle_at) (inr (refl, refl))
    | inr (w, g) ↦ rw (g, handle_at) (inl (w, refl, handle-Handles s w revents))
  ]

  dispatch-Round :
      (ps : List (ℕ × ℕ × ℕ)) (results : List ℕ) (s : Running H U W)
      → Round ps results s (dispatch call ps results s)
  unfolding dispatch
  dispatch-Round [] results s = over
  dispatch-Round ((i, fd, events) ∷ ps) [] s = unanswered
  dispatch-Round ((i, fd, events) ∷ ps) (revents ∷ results) s =
      answered (handle_at-Answers s i revents)
        (dispatch-Round ps results (handle_at call i revents s))

  is_nil-nil : (ps : List (ℕ × ℕ × ℕ)) → is_nil ps ≡ true → ps ≡ []
  is_nil-nil [] h = refl
  is_nil-nil (p ∷ ps) h = cc

  -- One round of the reactor polls the active watchers with a descriptor, in the slots' order,
  -- and does nothing more where there is none or poll gives no events; else, for each polled
  -- watcher in turn as far as poll's results go, the handler that its own events select on the
  -- watcher then in its slot is called: the error handler for an error, where there is one,
  -- else the other handler for an event asked for, and none where they select none or the
  -- watcher is not active by then.
  pub reactor_run_once-RunsOnce :
      (poll : List (ℕ × ℕ × ℕ) → Option (List ℕ)) (s : Running H U W)
      → RunsOnce poll s (reactor_run_once call poll s)
  unfolding reactor_run_once
  reactor_run_once-RunsOnce poll s =
      let ps = polled 0 s.watchers in
      let all = polled-Polls 0 s.watchers in
      elim (Bool-cases (is_nil ps)) [
        | inl n ↦ rw (n, reactor_run_once) (ps, all, inl (refl, refl, inl (is_nil-nil ps n)))
        | inr n ↦ elim (Option-cases (poll ps)) [
          | inl e ↦ rw (n, reactor_run_once) (rw e (ps, all, inl (refl, refl, inr e)))
          | inr (results, e) ↦
              rw (n, reactor_run_once)
                (rw e (ps, all, inr (results, e, refl, dispatch-Round ps results s)))
        ]
      ]
