-- ===== src/ThreadPool/Resize.antt =====
-- `setNumThreads` of ThreadPool.cpp.
use axon_queue.Prelude.{
  ℕ, zero, suc, ◌<◌, ◌≡◌, refl, ◌∙◌, Bool, true, false, List, [], ◌∷◌, arith, length, All, ◌==◌,
  nat_eq, ltb,
}
use axon_queue.QueueManager.{QueueManager}
use axon_queue.ThreadPool.{
  ThreadPool, resize, no_health, start_threads, start, stop, adjust_thread_pool, set_num_threads,
}

length-resize {ℓ} : {A : Type ℓ} (n : ℕ) (d : A) (xs : List A) → length (resize n d xs) ≡ n
unfolding resize
length-resize zero d xs = refl
length-resize (suc n) d [] = omega (arith, length-resize n d [])
length-resize (suc n) d (x ∷ xs) = omega (arith, length-resize n d xs)

abbrev pub AreAll : Bool → List Bool → Type 0
AreAll b ts = All (λ t. t ≡ b) ts

start_threads-AreAll : (ts : List Bool) → AreAll true (start_threads ts)
unfolding start_threads
start_threads-AreAll [] = tt
start_threads-AreAll (true ∷ ts) = (refl, start_threads-AreAll ts)
start_threads-AreAll (false ∷ ts) = (refl, start_threads-AreAll ts)

length-start_threads : (ts : List Bool) → length (start_threads ts) ≡ length ts
unfolding start_threads
length-start_threads [] = refl
length-start_threads (t ∷ ts) = omega (arith, length-start_threads ts)

resize-AreAll : (n : ℕ) (b : Bool) → AreAll b (resize n b [])
unfolding resize
resize-AreAll zero b = tt
resize-AreAll (suc n) b = (refl, resize-AreAll n b)

-- A pool that is not stopping and gets more threads has that many, all of them running, and one
-- health record for each.
set_num_threads_grow :
    (resume_queue : QueueManager → QueueManager) (n : ℕ) (p : ThreadPool)
    → length p.threads < n
    → p.should_stop ≡ false
    → let p' = set_num_threads resume_queue n p in
      (length p'.threads ≡ n)
      × AreAll true p'.threads
      × (length p'.worker_health ≡ n)
      × (p'.should_stop ≡ false)
unfolding set_num_threads adjust_thread_pool start
set_num_threads_grow k n p lt s =
    let a : (n == length p.threads) ≡ false = ground arith in
    let b : ltb n (length p.threads) ≡ false = ground arith in
    let c : ltb (length p.threads) n ≡ true = ground arith in
    rw (a, set_num_threads, b, c, s)
      (
        length-start_threads _ ∙ length-resize n true p.threads,
        start_threads-AreAll _,
        length-resize n no_health p.worker_health,
        refl,
      )

-- A pool that gets fewer threads has that many places, but it is stopping and no thread runs, until
-- `start` runs them all.
pub set_num_threads_shrink :
    (resume_queue : QueueManager → QueueManager) (n : ℕ) (p : ThreadPool)
    → n < length p.threads
    → let p' = set_num_threads resume_queue n p in
      (length p'.threads ≡ n)
      × AreAll false p'.threads
      × (p'.should_stop ≡ true)
      × (length (start p').threads ≡ n)
      × AreAll true (start p').threads
unfolding set_num_threads adjust_thread_pool start stop
set_num_threads_shrink k zero p lt =
    let a : (0 == length p.threads) ≡ false = ground arith in
    let b : ltb 0 (length p.threads) ≡ true = ground arith in
    rw (a, set_num_threads, b) (refl, tt, refl, refl, tt)
set_num_threads_shrink k (suc n) p lt =
    let a : (suc n == length p.threads) ≡ false = ground arith in
    let b : ltb (suc n) (length p.threads) ≡ true = ground arith in
    let c : ltb 0 (suc n) ≡ true = ground arith in
    let size = length-resize (suc n) false [] in
    rw (a, set_num_threads, b, c)
      (
        size,
        resize-AreAll (suc n) false,
        refl,
        length-start_threads (resize (suc n) false []) ∙ size,
        start_threads-AreAll (resize (suc n) false []),
      )
