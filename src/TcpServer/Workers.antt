-- ===== src/TcpServer/Workers.antt =====
-- The work queue of TCPServer.cpp between the threads that add to it, the workers that take from it
-- under its lock and do what they took outside of it, and the end of the workers.
use mathlib.Core.List.{Perm, append_assoc, append-nil}
use mathlib.Core.List.Perm
use axon_queue.Prelude.{
  ◌≡◌, refl, sym, ap, subst, ◌∙◌, Option, some, none, List, [], ◌∷◌, ◌++◌, arith, perm_swap_prefix,
  Option-cases, inl, inr,
}
use axon_queue.Task.Json.{JsonLib}
use axon_queue.Storage.Database.{RocksDb}
use axon_queue.CliCommands.{World}
use axon_queue.TcpServer.{TcpServer, Work, queue_work, stop_worker_threads}
use axon_queue.TcpServer.Requests.{last, take_work}

abbrev put_back {ℓ} : {A : Type ℓ} → Option (A × List A) → List A
put_back none = []
put_back (some (w, rest)) = rest ++ w ∷ []

put_back-last {ℓ} : {A : Type ℓ} (ws : List A) → put_back (last ws) ≡ ws
put_back-last [] = refl
put_back-last (v ∷ ws) =
    let ih = put_back-last ws in
    elim (Option-cases (last ws)) [
      | inl e ↦ rw e (ap (λ us. v ∷ us) (ap put_back (sym e) ∙ ih))
      | inr ((w, rest), e) ↦ rw e (ap (λ us. v ∷ us) (ap put_back (sym e) ∙ ih))
    ]

-- Moving one element to the front.
module _ {ℓ} {A : Type ℓ} where
  perm_queued :
      (q : List A) (w : A) (rest : List A) → Perm ((q ++ w ∷ []) ++ rest) (w ∷ (q ++ rest))
  perm_queued q w rest =
      subst (λ xs. Perm xs (w ∷ (q ++ rest))) (sym (append_assoc q (w ∷ []) rest))
        (perm_swap_prefix q (w ∷ []) rest)

  perm_finished :
      (us vs : List A) (w : A) (rest : List A)
      → Perm ((us ++ vs) ++ (w ∷ rest)) ((us ++ w ∷ vs) ++ rest)
  perm_finished us vs w rest = Perm.trans (perm_swap_prefix (us ++ vs) (w ∷ []) rest) (
      Perm.symm (
        subst (λ xs. Perm xs (w ∷ ((us ++ vs) ++ rest))) (sym (append_assoc us (w ∷ vs) rest))
          (subst (λ xs. Perm (us ++ (w ∷ (vs ++ rest))) (w ∷ xs)) (sym (append_assoc us vs rest))
            (perm_swap_prefix us (w ∷ []) (vs ++ rest)))))

  perm_dropped : (q ts fs ds : List A) → Perm (ts ++ (fs ++ (q ++ ds))) (q ++ (ts ++ (fs ++ ds)))
  perm_dropped q ts fs ds =
      Perm.trans (Perm.append_left ts (perm_swap_prefix fs q ds)) (perm_swap_prefix ts q (fs ++ ds))

module _ (lib : JsonLib) (rocks : RocksDb lib) (world : World lib) where
  open lib use {Json}

  abbrev Server : Type 0
  Server = TcpServer lib rocks world

  -- The server, the works that workers have taken and not finished, those that are finished, and
  -- those that were in the queue when the workers were stopped.
  pub record Workers : Type 0 where
    pub server : Server
    pub taken : List (Work Json)
    pub finished : List (Work Json)
    pub dropped : List (Work Json)

  -- What any thread does next: it queues a work, takes one if there is one, finishes one that it has,
  -- stops the workers, or does anything else that leaves the queue alone, such as a part of a work.
  pub data Turn (c : Workers) : List (Work Json) → Workers → Type 0 where
    queues :
        (w : Work Json)
        → Turn c (w ∷ []) (record c { server = queue_work lib rocks world w c.server })
    takes :
        (w : Work Json) (s : Server)
        → take_work lib rocks world c.server ≡ (some w, s)
        → Turn c [] (record c { server = s; taken = w ∷ c.taken })
    finishes :
        (us vs : List (Work Json)) (w : Work Json)
        → c.taken ≡ us ++ w ∷ vs
        → Turn c [] (record c { taken = us ++ vs; finished = w ∷ c.finished })
    stops : Turn c [] (record c {
      server = stop_worker_threads lib rocks world c.server;
      dropped = c.server.work_queue ++ c.dropped;
    })
    goes_on :
        (s : Server) → s.work_queue ≡ c.server.work_queue → Turn c [] (record c { server = s })

  -- Any interleaving of turns, with the works that it queued, the last one first.
  pub data Turns (c : Workers) : List (Work Json) → Workers → Type 0 where
    none_yet : Turns c [] c
    then_ :
        {ws ws' : List (Work Json)} {c' c'' : Workers}
        → Turns c ws c'
        → Turn c' ws' c''
        → Turns c (ws' ++ ws) c''

  abbrev pub works : Workers → List (Work Json)
  works c = c.server.work_queue ++ (c.taken ++ (c.finished ++ c.dropped))

  abbrev regained : Option (Work Json) × Server → List (Work Json)
  regained (none, s) = []
  regained (some w, s) = s.work_queue ++ w ∷ []

  take_work_lem :
      (w : Work Json) (s s' : Server)
      → take_work lib rocks world s ≡ (some w, s')
      → s.work_queue ≡ s'.work_queue ++ w ∷ []
  unfolding take_work
  take_work_lem w s s' e = elim (Option-cases (last s.work_queue)) [
    | inl empty ↦
        let nothing : take_work lib rocks world s ≡ (none, s) = rw (empty, take_work) refl in
        absurd (ground (arith, ap {A = Option (Work Json) × Server} (λ r. r.0) (sym nothing ∙ e)))
    | inr ((v, rest), full) ↦
        let taken : take_work lib rocks world s ≡ (some v, record s { work_queue = rest }) =
          rw (full, take_work) refl in
        sym (put_back-last s.work_queue) ∙ (ap put_back full ∙ ap regained (sym taken ∙ e))
  ]

  Turn-perm :
      {c c' : Workers} {ws : List (Work Json)} → Turn c ws c' → Perm (works c') (ws ++ works c)
  unfolding queue_work stop_worker_threads
  Turn-perm {c} (queues w) =
      perm_queued c.server.work_queue w (c.taken ++ (c.finished ++ c.dropped))
  Turn-perm {c} (takes w s e) =
      let others = c.taken ++ (c.finished ++ c.dropped) in
      let same : c.server.work_queue ++ others ≡ s.work_queue ++ (w ∷ others) =
        ap (λ q. q ++ others) (take_work_lem w c.server s e)
        ∙ append_assoc s.work_queue (w ∷ []) others in
      subst (Perm (s.work_queue ++ (w ∷ others))) (sym same) (Perm.refl _)
  Turn-perm {c} (finishes us vs w e) =
      let others = c.finished ++ c.dropped in
      Perm.append_left c.server.work_queue (
        subst (λ ts. Perm ((us ++ vs) ++ (w ∷ others)) (ts ++ others)) (sym e)
          (perm_finished us vs w others))
  Turn-perm {c} stops = perm_dropped c.server.work_queue c.taken c.finished c.dropped
  Turn-perm {c} (goes_on s e) =
      let others = c.taken ++ (c.finished ++ c.dropped) in
      subst (λ q. Perm (s.work_queue ++ others) (q ++ others)) e (Perm.refl _)

  Turns-perm :
      {c c' : Workers} {ws : List (Work Json)} → Turns c ws c' → Perm (works c') (ws ++ works c)
  Turns-perm {c} none_yet = Perm.refl (works c)
  Turns-perm {c} (then_ {ws} {ws'} {c'} r turn) = Perm.trans (Turn-perm turn) (
      subst (Perm (ws' ++ works c')) (sym (append_assoc ws' ws (works c)))
        (Perm.append_left ws' (Turns-perm r)))

  abbrev pub begin_with : Server → Workers
  begin_with s = record { server = s; taken = []; finished = []; dropped = [] }

  pub works_conserved :
      (s : Server) (ws : List (Work Json)) (c : Workers)
      → Turns (begin_with s) ws c
      → Perm (c.server.work_queue ++ (c.taken ++ (c.finished ++ c.dropped))) (ws ++ s.work_queue)
  works_conserved s ws c r =
      subst (λ q. Perm (works c) (ws ++ q)) (append-nil s.work_queue) (Turns-perm r)
