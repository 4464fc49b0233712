-- ===== src/Tests/World.antt =====
-- A small operating system that keeps the documented behaviour: one stream of bytes comes in and
-- one goes out, nothing is ever interrupted, and epoll refuses the descriptor 9.
use tcpframe.Prelude.{
  ℕ, zero, suc, ◌≤◌, ◌<◌, ◌≡◌, refl, sym, ap, ◌∙◌, Bool, true, false, subst, Option, some, List, [],
  ◌∷◌, ◌++◌, ◌==◌, if◌then◌else◌, update, arith,
}
use tcpframe.Prelude.Bytes.{length, take, drop, length-take}
use tcpframe.Time.{Timeval}
use tcpframe.Os.{
  Os, OsLaws, Mask, ReadResult, got, read_again, read_interrupted, moves_nothing, WriteResult,
  wrote, sends_nothing, accepted, after_ctl, eagain, in_progress,
}

pub record Streams : Type 0 where
  pub queue : List ℕ
  pub sent : List ℕ
  pub interest : ℕ → Option Mask

abbrev pub read_from : ℕ → List ℕ → ReadResult
read_from zero q = read_again
read_from (suc n) [] = read_again
read_from (suc n) (b ∷ q) = got (b ∷ take n q)

abbrev pub left_from : ℕ → List ℕ → List ℕ
left_from zero q = q
left_from (suc n) [] = []
left_from (suc n) (b ∷ q) = drop n q

abbrev pub noon : Timeval
noon = record { sec = 1000; usec = 500 }

-- Streams on which epoll_ctl fails for the descriptors that are `bad`.
abbrev pub stream_os : (ℕ → Bool) → Os
stream_os bad = record {
  World = Streams;
  read = λ w fd n. (read_from n w.queue, record w { queue = left_from n w.queue });
  write = λ w fd bs. (wrote (length bs), record w { sent = w.sent ++ bs });
  accept = λ w fd. (accepted 7, w);
  set_nonblock = λ w fd. (true, w);
  close = λ w fd. w;
  epoll_create = λ w. (some 3, w);
  epoll_ctl = λ w op fd m.
      if bad fd
      then (false, w)
      else (true, record w { interest = update w.interest fd (after_ctl op m) });
  gettimeofday = λ w. (noon, w);
  malloc = λ w n. (true, w);
  realloc = λ w n. true;
  getpid = λ w. 42;
  errno = λ w. eagain;
  socket = λ w kind. (some 7, w);
  connect = λ w fd addr port. (in_progress, w);
  setsockopt = λ w fd opt. (true, w);
  so_error = λ w fd. (some 0, w);
  bind = λ w fd addr port. (true, w);
  listen = λ w fd. (true, w);
  inet_addr = λ host. some 2130706433;
}

pub take-drop : (n : ℕ) (q : List ℕ) → q ≡ take n q ++ drop n q
take-drop zero q = refl
take-drop (suc n) [] = refl
take-drop (suc n) (b ∷ q) = ap (◌∷◌ b) (take-drop n q)

pub take_all : (bs : List ℕ) → take (length bs) bs ≡ bs
take_all [] = refl
take_all (b ∷ bs) = ap (◌∷◌ b) (take_all bs)

abbrev pub bytes_of : ReadResult → List ℕ
bytes_of (got bs) = bs
bytes_of _ = []

abbrev pub count_of : WriteResult → ℕ
count_of (wrote n) = n
count_of _ = 0

pub takes :
    (n : ℕ) (q bs : List ℕ)
    → read_from n q ≡ got bs
    → (0 < length bs) × (length bs ≤ n) × (q ≡ bs ++ left_from n q)
takes zero q bs e = absurd (ground (arith, e))
takes (suc n) [] bs e = absurd (ground (arith, e))
takes (suc n) (b ∷ q) bs e =
    subst (λ xs. (0 < length xs) × (length xs ≤ suc n) × (b ∷ q ≡ xs ++ drop n q)) (ap bytes_of e)
      (omega arith, omega (arith, length-take n q), ap (◌∷◌ b) (take-drop n q))

pub keeps :
    (n : ℕ) (q : List ℕ) (r : ReadResult)
    → read_from n q ≡ r
    → moves_nothing r ≡ true
    → left_from n q ≡ q
keeps zero q r e idle = refl
keeps (suc n) [] r e idle = refl
keeps (suc n) (b ∷ q) r e idle = absurd (ground (arith, ap moves_nothing e, idle))

pub never_interrupted : (n : ℕ) (q : List ℕ) → ¬ (read_from n q ≡ read_interrupted)
never_interrupted zero q e = ground (arith, e)
never_interrupted (suc n) [] e = ground (arith, e)
never_interrupted (suc n) (b ∷ q) e = ground (arith, e)

pub succeeded :
    (bad : Bool) (w v w' : Streams)
    → ◌≡◌ {A = Bool × Streams} (if bad then (false, w) else (true, v)) (true, w')
    → v ≡ w'
succeeded true w v w' e = absurd (ground (arith, ap (λ x. x.0) e))
succeeded false w v w' e = ap (λ x. x.1) e

pub refused :
    (bad : Bool) (w v w' : Streams)
    → ◌≡◌ {A = Bool × Streams} (if bad then (false, w) else (true, v)) (false, w')
    → w ≡ w'
refused true w v w' e = ap (λ x. x.1) e
refused false w v w' e = absurd (ground (arith, ap (λ x. x.0) e))

pub unwritten :
    (bad : Bool) (w v : Streams) → v.sent ≡ w.sent → (if bad then w else v).sent ≡ w.sent
unwritten true w v e = refl
unwritten false w v e = e

abbrev pub stream_laws : (bad : ℕ → Bool) → OsLaws (stream_os bad)
stream_laws bad = record {
  interest = λ w. w.interest;
  ctl_sets = λ w op fd m w' e g. ap (λ v. v.interest g) (sym (succeeded (bad fd) w _ w' e));
  ctl_leaves = λ w op fd m w' e g. ap (λ v. v.interest g) (sym (refused (bad fd) w _ w' e));
  outgoing = λ w fd. w.sent;
  ctl_writes_nothing = λ w op fd m g. ground arith;
  malloc_watches_nothing = λ w n g. refl;
  malloc_writes_nothing = λ w n g. refl;
  incoming = λ w fd. w.queue;
  read_takes = λ w fd n bs w' e.
      let (some_byte, few, front) = takes n w.queue bs (ap (λ x. x.0) e) in
      (some_byte, few, front ∙ ap (λ x. bs ++ x.1.queue) e);
  read_nothing =
      λ w fd n r w' e idle. sym (ap (λ x. x.1.queue) e) ∙ keeps n w.queue r (ap (λ x. x.0) e) idle;
  malloc_reads_nothing = λ w n g. refl;
  signals = λ w. 0;
  malloc_keeps_signals = λ w n. refl;
  read_interrupts = λ w fd n w' e. absurd (never_interrupted n w.queue (ap (λ x. x.0) e));
  read_keeps_signals = λ w fd n r w' e. omega arith;
  clock_normal = λ w. omega arith;
  write_takes = λ w fd bs n w' e some_byte.
      let size : length bs ≡ n = ap (λ x. count_of x.0) e in
      (
        omega (arith, size),
        omega (arith, size),
        sym (ap (λ x. x.1.sent) e)
            ∙ ap (λ x. w.sent ++ x) (sym (take_all bs) ∙ ap (λ k. take k bs) size),
      );
  write_nothing =
      λ w fd bs r w' e idle. absurd (ground (arith, ap (λ x. sends_nothing x.0) e, idle));
  write_interrupts = λ w fd bs w' e. absurd (ground (arith, ap (λ x. sends_nothing x.0) e));
  write_keeps_signals = λ w fd bs n w' e. omega arith;
}

abbrev pub small_os : Os
small_os = stream_os (λ fd. fd == 9)

abbrev pub small_laws : OsLaws small_os
small_laws = stream_laws (λ fd. fd == 9)
