-- ===== src/Graph/Cycle/Search.antt =====
-- What one search of `hasCycle` finds, and what it leaves.
use axon_queue.Prelude.{
  ℕ, zero, suc, ◌≤◌, ◌<◌, ◌≡◌, refl, sym, subst, ◌∙◌, Bool, true, false, ◌||◌, Option, some, List,
  [], ◌∷◌, ◌==◌, nat_eq, arith, if◌then◌else◌, ==_refl, Bool-cases, ◌⊎◌, inl, inr,
}
use axon_queue.Prelude.Dict.{put, find_or-put}
use axon_queue.Prelude.IdSet.{contains}
use axon_queue.Task.{TaskId}
use axon_queue.Graph.{Graph, targets, Edge}
use axon_queue.Graph.Walk.{Reach, step, here, names, IsCyclic}
use axon_queue.Graph.Walk.Unseen.{unseen, unseen_mono, unseen-lt, names-target}
use axon_queue.Graph.Cycle.{
  State, unvisited, in_progress, visited, States, state, scan, finish, dfs,
}

abbrev pub is_open : State → Bool
is_open in_progress = true
is_open _ = false

abbrev pub is_done : State → Bool
is_done visited = true
is_done _ = false

abbrev pub is_marked : State → Bool
is_marked unvisited = false
is_marked _ = true

pub State-cases : (s : State) → (s ≡ unvisited) ⊎ (s ≡ in_progress) ⊎ (s ≡ visited)
State-cases unvisited = inl refl
State-cases in_progress = inr (inl refl)
State-cases visited = inr (inr refl)

-- Every walk from `v` ends.
pub data Ends (g : Graph) : TaskId → Type 0 where
  ends : (v : TaskId) → ((w : TaskId) → Edge g v w → Ends g w) → Ends g v

module _ (g : Graph) where
  -- From `m` to `m'` the same ids are in progress, visited ids stay so, and every visited id is
  -- known to start no infinite walk.
  pub record Follows (m m' : States) : Type 0 where
    pub same : (u : TaskId) → is_open (state m' u) ≡ is_open (state m u)
    pub keeps : (u : TaskId) → is_done (state m u) ≡ true → is_done (state m' u) ≡ true
    pub safe : (u : TaskId) → is_done (state m' u) ≡ true → Ends g u

  abbrev pub IsSafe : States → Type 0
  IsSafe m = (u : TaskId) → is_done (state m u) ≡ true → Ends g u

  -- Every id in progress leads to `v`.
  abbrev pub LeadsTo : States → TaskId → Type 0
  LeadsTo m v = (u : TaskId) → is_open (state m u) ≡ true → Reach g u v

  -- A search finds a cycle, or ends with what `P` says of the states.
  abbrev pub Outcome : (States → Type 0) → Option (Bool × States) → Type 0
  Outcome P o =
      ((m : States) × (o ≡ some (true, m)) × IsCyclic g)
      ⊎ ((m : States) × (o ≡ some (false, m)) × P m)

  pub record Finished (v : TaskId) (m m' : States) : Type 0 where
    pub follows : Follows m m'
    pub done : is_done (state m' v) ≡ true

  pub record Scanned (ws : List TaskId) (m m' : States) : Type 0 where
    pub follows : Follows m m'
    pub done : (w : TaskId) → contains ws w ≡ true → is_done (state m' w) ≡ true

  abbrev pub left : States → ℕ
  left m = unseen (λ u. is_marked (state m u)) (names g)

  Follows-refl : (m : States) → IsSafe m → Follows m m
  Follows-refl m s = record { same = λ u. refl; keeps = λ u h. h; safe = s }

  Follows-trans : (m m' m'' : States) → Follows m m' → Follows m' m'' → Follows m m''
  Follows-trans m m' m'' p q = record {
    same = λ u. q.same u ∙ p.same u;
    keeps = λ u h. q.keeps u (p.keeps u h);
    safe = q.safe;
  }

  marked_split : (s : State) → is_marked s ≡ (is_open s || is_done s)
  marked_split s = ground arith

  pub left_mono : (m m' : States) → Follows m m' → left m' ≤ left m
  left_mono m m' f = unseen_mono _ _ (names g) λ u h.
      ground (arith, marked_split (state m u), marked_split (state m' u), f.same u, f.keeps u)

  Outcome-map :
      {P Q : States → Type 0} (o : Option (Bool × States))
      → ((m : States) → P m → Q m)
      → Outcome P o
      → Outcome Q o
  Outcome-map o f (inl cycle) = inl cycle
  Outcome-map o f (inr (m, e, p)) = inr (m, e, f m p)

  Scanned-cons :
      (w : TaskId) (ws : List TaskId) (m m' m'' : States)
      → Follows m m'
      → is_done (state m' w) ≡ true
      → Scanned ws m' m''
      → Scanned (w ∷ ws) m m''
  unfolding contains
  Scanned-cons w ws m m' m'' p d q = record {
    follows = Follows-trans m m' m'' p q.follows;
    done = λ x i. ground (arith, q.done x, q.follows.keeps w);
  }

  -- The neighbours of `v`, given what the search of one of them does.
  module _ (v : TaskId) (n : ℕ) (f : TaskId → States → Option (Bool × States))
      (call : (w : TaskId) (m : States)
        → Edge g v w
        → state m w ≡ unvisited
        → LeadsTo m w
        → left m < n
        → IsSafe m
        → Outcome (Finished w m) (f w m)) where
    scan-Outcome :
        (ws : List TaskId)
        → ((w : TaskId) → contains ws w ≡ true → Edge g v w)
        → (m : States) → LeadsTo m v
        → left m < n
        → IsSafe m
        → Outcome (Scanned ws m) (scan f ws m)
    unfolding scan contains
    scan-Outcome [] edges m lead h s =
        inr (m, refl, record { follows = Follows-refl m s; done = λ w i. cc })
    scan-Outcome (w ∷ ws) edges m lead h s =
        let edge : Edge g v w = edges w (ground (arith, ==_refl w)) in
        let edges' : (x : TaskId) → contains ws x ≡ true → Edge g v x =
          λ x i. edges x (ground arith) in
        elim (State-cases (state m w)) [
          | inl new ↦ elim (call w m edge new (λ u o. step (lead u o) edge) h s) [
            | inl (m', ran, c) ↦ inl (m', rw (new, scan, ran), c)
            | inr (m', ran, fin) ↦
                rw (new, scan, ran, scan)
                  (Outcome-map _ (λ m'' q. Scanned-cons w ws m m' m'' fin.follows fin.done q)
                    (scan-Outcome ws edges' m' (λ u o. lead u (sym (fin.follows.same u) ∙ o))
                      (omega (arith, left_mono m m' fin.follows)) fin.follows.safe))
          ]
          | inr (inl open_) ↦ inl (
            m,
            rw (open_, scan),
            record { start = v; second = w; leaves = edge; returns = lead w (ground arith) },
          )
          | inr (inr old) ↦
              rw (old, scan)
                (Outcome-map _
                  (λ m'' q. Scanned-cons w ws m m m'' (Follows-refl m s) (ground arith) q)
                  (scan-Outcome ws edges' m lead h s))
        ]

  state-put :
      (v u : TaskId) (c : State) (m : States)
      → state (put v c m) u ≡ (if v == u then c else state m u)
  state-put v u c m = find_or-put unvisited v u c m

  module _ (v : TaskId) (m : States) (new : state m v ≡ unvisited) (lead : LeadsTo m v)
      (s : IsSafe m) where
    opened : States
    opened = put v in_progress m

    opened-state : (u : TaskId) → state opened u ≡ (if v == u then in_progress else state m u)
    unfolding opened
    opened-state u = state-put v u in_progress m

    opened-LeadsTo : LeadsTo opened v
    opened-LeadsTo u o = elim (Bool-cases (v == u)) [
      | inl e ↦ subst (λ x. Reach g x v) (ground arith) here
      | inr ne ↦ lead u (ground (arith, opened-state u))
    ]

    opened-IsSafe : IsSafe opened
    opened-IsSafe u d = s u (ground (arith, opened-state u))

    left-opened : contains (names g) v ≡ true → left opened < left m
    left-opened i =
        unseen-lt (λ u. is_marked (state m u)) (λ u. is_marked (state opened u)) (names g) v
          (λ u h. ground (arith, opened-state u)) i (ground arith)
          (ground (arith, opened-state v, ==_refl v))

    closed-Finished :
        (m' : States) → Scanned (targets v g) opened m' → Finished v m (put v visited m')
    closed-Finished m' sc = record {
      follows = record {
        same = λ u. ground (arith, state-put v u visited m', sc.follows.same u, opened-state u);
        keeps = λ u h. ground (arith, state-put v u visited m', sc.follows.keeps u, opened-state u);
        safe = λ u d. elim (Bool-cases (v == u)) [
          | inl e ↦
              subst (Ends g) (ground arith) (ends v (λ w edge. sc.follows.safe w (sc.done w edge)))
          | inr ne ↦ sc.follows.safe u (ground (arith, state-put v u visited m'))
        ];
      };
      done = ground (arith, state-put v v visited m', ==_refl v);
    }

    finish-Outcome :
        (o : Option (Bool × States))
        → Outcome (Scanned (targets v g) opened) o
        → Outcome (Finished v m) (finish v o)
    unfolding finish
    finish-Outcome o (inl (m', ran, c)) = inl (m', rw (ran, finish), c)
    finish-Outcome o (inr (m', ran, sc)) =
        inr (put v visited m', rw (ran, finish), closed-Finished m' sc)

  -- With more fuel than unvisited ids the search of an id returns.
  pub dfs-Outcome :
      (n : ℕ) (v : TaskId) (m : States)
      → state m v ≡ unvisited
      → contains (names g) v ≡ true
      → LeadsTo m v
      → left m < n
      → IsSafe m
      → Outcome (Finished v m) (dfs n g v m)
  unfolding dfs opened
  dfs-Outcome zero v m new i lead h s = absurd (omega arith)
  dfs-Outcome (suc n) v m new i lead h s = finish-Outcome v m new lead s _ (
      scan-Outcome v n (dfs n g)
        (λ w m' edge fresh leads hl safe.
          dfs-Outcome n w m' fresh (names-target g v w edge) leads hl safe)
        (targets v g) (λ w e. e) (opened v m new lead s) (opened-LeadsTo v m new lead s)
        (omega (arith, left-opened v m new lead s i)) (opened-IsSafe v m new lead s))
