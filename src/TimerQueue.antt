-- ===== src/TimerQueue.antt =====
-- src/timer_queue.h, src/timer_queue.cpp: one timerfd for many timers, on the loop's thread. Times are
-- nanoseconds. An iterator into the set is the key of its node. A callback is what it does to the queue.
pub mod Order
pub mod Invariant
pub mod Expiry
pub mod Firing
pub mod Gone
mod Tests
use game_frame.Prelude.{
  ℕ, zero, suc, ◌+◌, ◌-◌, ◌*◌, ◌/◌, ◌%◌, ◌^◌, Bool, true, false, not, ◌&&◌, ◌||◌, List, [], ◌∷◌,
  ◌++◌, Option, none, some, ltb, leb, ◌==◌, if◌then◌else◌,
}

-- The calls that a callback makes: `run_at` with a callback, `run_after`, and `cancel`, in order.
pub data Script : Type 0 where
  finished : Script
  schedule : ℕ → Script → Script → Script
  schedule_after : ℕ → Script → Script → Script
  withdraw : ℕ → Script → Script

-- `cb` is `none` for an empty `std::function`.
pub record Entry : Type 0 where
  pub expiration : ℕ
  pub id : ℕ
  pub cb : Option Script

-- `Entry::operator<`
pub before : Entry → Entry → Bool
before e f =
    if not (e.expiration == f.expiration) then ltb e.expiration f.expiration else ltb e.id f.id

-- `it_value`; `it_interval` stays 0.
pub record ItimerSpec : Type 0 where
  pub tv_sec : ℕ
  pub tv_nsec : ℕ

abbrev pub ns_per_sec : ℕ
ns_per_sec = 1_000_000_000

pub to_itimerspec : ℕ → ℕ → ItimerSpec
to_itimerspec now expiration =
    let remaining = if ltb expiration (now + 1) then 1 else expiration - now in
    record { tv_sec = remaining / ns_per_sec; tv_nsec = remaining % ns_per_sec }

-- `id_to_iter_` gives the key of an id's node, which beside the id is the expiration. `setting` is
-- the last call of `timerfd_settime` with the time of the clock reading behind it. `readings` counts
-- how often the clock was read, `fired` records the callbacks' ids in the order of their calls.
pub record TimerQueue : Type 0 where
  pub timers : List Entry
  pub id_to_iter : ℕ → Option ℕ
  pub next_id : ℕ
  pub setting : Option (ℕ × ItimerSpec)
  pub readings : ℕ
  pub fired : List ℕ

unfoldable pub new : TimerQueue
new = record {
  timers = [];
  id_to_iter = λ _. none;
  next_id = 1;
  setting = none;
  readings = 0;
  fired = [];
}

-- `std::set::insert`: an entry with an equal key stays alone.
pub insert : Entry → List Entry → List Entry
insert e [] = e ∷ []
insert e (f ∷ fs) =
    if before e f then e ∷ f ∷ fs else if before f e then f ∷ insert e fs else f ∷ fs

-- `std::set::erase` of the node with this key
pub erase : ℕ → ℕ → List Entry → List Entry
erase expiration id [] = []
erase expiration id (f ∷ fs) =
    if (f.expiration == expiration) && (f.id == id) then fs else f ∷ erase expiration id fs

-- `timers_.empty() || entry < *timers_.begin()`
pub is_earliest : Entry → List Entry → Bool
is_earliest e [] = true
is_earliest e (f ∷ fs) = before e f

-- `set_it == timers_.begin()`
pub is_first : ℕ → ℕ → List Entry → Bool
is_first expiration id [] = false
is_first expiration id (f ∷ fs) = (f.expiration == expiration) && (f.id == id)

-- `unordered_map::emplace`, which keeps what is there, and `erase`
pub emplace : (ℕ → Option ℕ) → ℕ → ℕ → ℕ → Option ℕ
emplace m id it j = if j == id then elim (m id) [ none ↦ some it | some old ↦ some old ] else m j

pub forget : (ℕ → Option ℕ) → ℕ → ℕ → Option ℕ
forget m id j = if j == id then none else m j

-- the expired entries, and the queue without them
pub take_expired : ℕ → List Entry → (ℕ → Option ℕ) → List Entry × List Entry × (ℕ → Option ℕ)
take_expired now [] m = ([], [], m)
take_expired now (e ∷ es) m =
    let rest = take_expired now es (forget m e.id) in
    if leb e.expiration now then (e ∷ rest.0, rest.1, rest.2) else ([], e ∷ es, m)

-- The n-th reading of `steady_clock::now()`.
module _ (clock : ℕ → ℕ) where
  pub reset_timerfd : TimerQueue → ℕ → TimerQueue
  reset_timerfd q earliest =
      let now = clock q.readings in
      record q { setting = some (now, to_itimerspec now earliest); readings = suc q.readings }

  -- `reset_timerfd(timers_.begin()->expiration)` under `!timers_.empty()`
  pub reset_to_first : TimerQueue → List Entry → TimerQueue
  reset_to_first q [] = q
  reset_to_first q (e ∷ es) = reset_timerfd q e.expiration

  pub add_timer_in_loop : TimerQueue → Entry → TimerQueue
  add_timer_in_loop q entry =
      let q' = record q {
        timers = insert entry q.timers;
        id_to_iter = emplace q.id_to_iter entry.id entry.expiration;
      } in
      if is_earliest entry q.timers then reset_to_first q' q'.timers else q'

  pub cancel_in_loop : TimerQueue → ℕ → TimerQueue
  cancel_in_loop q id = elim (q.id_to_iter id) [
    | none ↦ q
    | some expiration ↦
        let q' = record q {
          timers = erase expiration id q.timers;
          id_to_iter = forget q.id_to_iter id;
        } in
        if is_first expiration id q.timers then reset_to_first q' q'.timers else q'
  ]

  -- On the loop's own thread `run_in_loop` calls its functor at once.
  pub run_at : TimerQueue → ℕ → Option Script → ℕ × TimerQueue
  run_at q expiration cb =
      let id = q.next_id in
      (
        id,
        add_timer_in_loop (record q { next_id = suc id })
            (record { expiration = expiration; id = id; cb = cb }),
      )

  pub run_after : TimerQueue → ℕ → Option Script → ℕ × TimerQueue
  run_after q delay_ms cb =
      run_at (record q { readings = suc q.readings }) (clock q.readings + delay_ms * 1_000_000) cb

  pub call : Script → TimerQueue → TimerQueue
  call finished q = q
  call (schedule expiration cb rest) q = call rest (run_at q expiration (some cb)).1
  call (schedule_after delay_ms cb rest) q = call rest (run_after q delay_ms (some cb)).1
  call (withdraw id rest) q = call rest (cancel_in_loop q id)

  -- `if (e.cb) e.cb();`
  pub fire : Entry → TimerQueue → TimerQueue
  fire e q = elim e.cb [
    | none ↦ q
    | some script ↦ call script (record q { fired = q.fired ++ e.id ∷ [] })
  ]

  pub fire_all : List Entry → TimerQueue → TimerQueue
  fire_all [] q = q
  fire_all (e ∷ es) q = fire_all es (fire e q)

  -- The bytes read from the timerfd say nothing that is used.
  pub handle_read : TimerQueue → TimerQueue
  handle_read q =
      let (expired, kept, index) = take_expired (clock q.readings) q.timers q.id_to_iter in
      let q' =
        fire_all expired
          (record q { timers = kept; id_to_iter = index; readings = suc q.readings }) in
      reset_to_first q' q'.timers
