-- ===== src/Tests/Processes.antt =====
-- The log over a table of files, the socket that listens over a set of descriptors, and the master
-- over a number of processes.
use tcpframe.Prelude.{
  ℕ, zero, suc, ◌+◌, ◌<◌, ◌≡◌, refl, ap, sym, ◌∙◌, ◌≢◌, Bool, true, false, Option, List, none, some,
  [], ◌∷◌, ◌++◌, arith, if◌then◌else◌, ◌==◌, update, Returns,
}
use tcpframe.Prelude.Int.{pos}
use tcpframe.Prelude.Bytes.{length}
use tcpframe.Os.{Os, read_again, write_again, accept_again, eagain, connected}
use tcpframe.Log.{Fs, LogHandle, fd_file, roll_oldfile2new, shift_from, log_msg}
use tcpframe.Log.Rotation.{FsLaws, Rotated, roll_oldfile2new-Rotated}
use tcpframe.Log.Message.{Written, on_file, log_msg-never_rolls}
use tcpframe.SocketSetup.{create_tcp_server}
use tcpframe.SocketSetup.Descriptors.{Descriptors, Tidy, create_tcp_server-Tidy}
use tcpframe.Master.{Processes, in_parent, master_turn, next, wait_error}
use tcpframe.Master.Supervision.{Children, Supervises, first, more, master-Supervises}

abbrev pub with_log : Option (List ℕ) → (ℕ → Option (List ℕ)) → ℕ → Option (List ℕ)
with_log none w = update w 0 (some [])
with_log (some bs) w = w

-- Files by their number.
abbrev pub table_fs : Fs
table_fs = record {
  World = ℕ → Option (List ℕ);
  stat = λ w i. elim (w i) [ none ↦ none | some bs ↦ some (length bs) ];
  remove = λ w k. update w k none;
  rename = λ w a b i. if b == i then w a else (if a == i then none else w i);
  open_log = λ w. (some 4, with_log (w 0) w);
  close = λ w fd. w;
  write = λ w fd bs. elim (w 0) [ none ↦ w | some old ↦ update w 0 (some (old ++ bs)) ];
  print = λ w text. w;
  malloc = λ w. (true, w);
  mutex_init = λ w. true;
}

abbrev table_laws : FsLaws table_fs
table_laws = record {
  content = λ w i. w i;
  stat_some = λ w i n e h. by_file (w i) n e h;
  stat_none = λ w i e. no_file (w i) e;
  close_keeps = λ w fd i. refl;
  removed = λ w k i. refl;
  renamed = λ w a b i d. refl;
  opened = λ w fd w' e free. ap (λ x. x.1 0) (sym e) ∙ rw free refl;
  opened_others = λ w r w' i e p. ap (λ x. x.1 i) (sym e) ∙ others (w 0) w i p;
}
  where
    by_file :
        (o : Option (List ℕ)) (n : ℕ)
        → ◌≡◌ {A = Option ℕ} (elim o [ none ↦ none | some bs ↦ some (length bs) ]) (some n)
        → o ≢ none
    by_file none n e h = ground (arith, e)
    by_file (some bs) n e h = ground (arith, h)

    no_file :
        (o : Option (List ℕ))
        → ◌≡◌ {A = Option ℕ} (elim o [ none ↦ none | some bs ↦ some (length bs) ]) none
        → o ≡ none
    no_file none e = refl
    no_file (some bs) e = absurd (ground (arith, e))

    others : (o : Option (List ℕ)) (w : ℕ → Option (List ℕ)) (i : ℕ) → 0 < i → with_log o w i ≡ w i
    others none w i p = let miss : (0 == i) ≡ false = ground arith in rw miss refl
    others (some bs) w i p = refl

-- A full log with one older file.
abbrev two_files : ℕ → Option (List ℕ)
two_files i = if i == 0 then some (1 ∷ []) else (if i == 1 then some (2 ∷ []) else none)

abbrev open_handle : LogHandle
open_handle = record {
  log_fd = pos 4;
  log_size = 1048576;
  log_level = 3;
  log_file_count = 3;
  log_std = fd_file;
  log_filename = [];
}

roll_oldfile2new-Rotated_example :
    Rotated table_fs table_laws two_files 3 (roll_oldfile2new table_fs two_files open_handle).1
    × ((fd : ℕ) × (v : ℕ → Option (List ℕ)) × (table_fs.open_log v
          ≡ (some fd, (roll_oldfile2new table_fs two_files open_handle).1))
        × (open_handle ≡ record open_handle { log_fd = pos fd }))
unfolding roll_oldfile2new shift_from
roll_oldfile2new-Rotated_example =
    roll_oldfile2new-Rotated table_fs table_laws two_files open_handle open_handle
      (roll_oldfile2new table_fs two_files open_handle).1 (omega arith) refl

log_msg-never_rolls_example : Returns (Written table_fs two_files open_handle 3) (
    log_msg table_fs two_files
      (some (on_file open_handle 4))
      (some (109 ∷ []))
      (55 ∷ [])
      1
      []
      (33 ∷ []))
log_msg-never_rolls_example =
    log_msg-never_rolls table_fs two_files open_handle 3 (109 ∷ []) (55 ∷ []) 1 [] (33 ∷ [])
      (omega arith) (omega arith)

-- A system that knows which descriptors are open; it gives out the descriptor 3.
abbrev set_os : Os
set_os = record {
  World = ℕ → Bool;
  read = λ w fd n. (read_again, w);
  write = λ w fd bs. (write_again, w);
  accept = λ w fd. (accept_again, w);
  set_nonblock = λ w fd. (true, w);
  close = λ w fd. update w fd false;
  epoll_create = λ w. (none, w);
  epoll_ctl = λ w op fd m. (true, w);
  gettimeofday = λ w. (record { sec = 0; usec = 0 }, w);
  malloc = λ w n. (true, w);
  realloc = λ w n. true;
  getpid = λ w. 42;
  errno = λ w. eagain;
  socket = λ w kind. if w 3 then (none, w) else (some 3, update w 3 true);
  connect = λ w fd addr port. (connected, w);
  setsockopt = λ w fd opt. (true, w);
  so_error = λ w fd. (some 0, w);
  bind = λ w fd addr port. (true, w);
  listen = λ w fd. (true, w);
  inet_addr = λ host. none;
}

abbrev set_laws : Descriptors set_os
set_laws = record {
  in_use = λ w fd. w fd;
  socket_free = λ w p fd w' e. free (w 3) fd w w' refl e;
  socket_opens = λ w p fd w' g e. opens (w 3) fd w w' g e;
  socket_fails = λ w p w' g e. fails (w 3) w w' g e;
  close_closes = λ w fd g. refl;
  setsockopt_keeps = λ w fd g o. refl;
  set_nonblock_keeps = λ w fd g. refl;
  bind_keeps = λ w fd addr port g. refl;
  listen_keeps = λ w fd g. refl;
}
  where
    given : Bool → (ℕ → Bool) → Option ℕ × (ℕ → Bool)
    given b w = if b then (none, w) else (some 3, update w 3 true)

    number : Option ℕ → ℕ
    number o = elim o [ none ↦ 0 | some n ↦ n ]

    free :
        (b : Bool) (fd : ℕ) (w w' : ℕ → Bool) → w 3 ≡ b → given b w ≡ (some fd, w') → w fd ≡ false
    free true fd w w' eq e = absurd (ground (arith, ap (λ x. x.0) e))
    free false fd w w' eq e = let at : 3 ≡ fd = ap (λ x. number x.0) e in ap w (sym at) ∙ eq

    opens :
        (b : Bool) (fd : ℕ) (w w' : ℕ → Bool) (g : ℕ)
        → given b w ≡ (some fd, w')
        → w' g ≡ (if fd == g then true else w g)
    opens true fd w w' g e = absurd (ground (arith, ap (λ x. x.0) e))
    opens false fd w w' g e =
        let at : 3 ≡ fd = ap (λ x. number x.0) e in ap (λ x. x.1 g) (sym e) ∙ rw⁻¹ at refl

    fails : (b : Bool) (w w' : ℕ → Bool) (g : ℕ) → given b w ≡ (none, w') → w' g ≡ w g
    fails true w w' g e = ap (λ x. x.1 g) (sym e)
    fails false w w' g e = absurd (ground (arith, ap (λ x. x.0) e))

create_tcp_server-Tidy_example :
    Tidy set_os set_laws
      (λ ip. some 0)
      (λ fd. false)
      (create_tcp_server set_os (λ ip. some 0) (λ fd. false) (some (48 ∷ [])) (pos 8080))
create_tcp_server-Tidy_example =
    create_tcp_server-Tidy set_os set_laws (λ ip. some 0) (λ fd. false) (some (48 ∷ [])) (pos 8080)
      (λ v fd o. refl) (λ v fd. refl)

-- Processes as their number.
abbrev counted : Processes
counted = record {
  World = ℕ;
  fork = λ w. (in_parent 7, suc w);
  wait = λ w. elim w [ zero ↦ (none, zero) | suc n ↦ (some 7, n) ];
  atoi = λ text. pos 1;
}

abbrev counted_laws : Children counted
counted_laws = record {
  children = λ w. w;
  forked = λ w pid w' e. ap (λ x. x.1) (sym e);
  collected = by_number;
  no_child = none_left;
}
  where
    by_number :
        (w pid w' : ℕ)
        → ◌≡◌ {A = Option ℕ × ℕ}
            (elim w [ zero ↦ (none, zero) | suc n ↦ (some 7, n) ])
            (some pid, w')
        → w ≡ suc w'
    by_number zero pid w' e = absurd (ground (arith, ap (λ x. x.0) e))
    by_number (suc n) pid w' e = ap (λ x. suc x.1) e

    none_left :
        (w w' : ℕ)
        → ◌≡◌ {A = Option ℕ × ℕ} (elim w [ zero ↦ (none, zero) | suc n ↦ (some 7, n) ]) (none, w')
        → w ≡ 0
    none_left zero w' e = refl
    none_left (suc n) w' e = absurd (ground (arith, ap (λ x. x.0) e))

-- Two workers are started and one of them ends.
master-Supervises_example :
    (1 + 1 ≡ 2)
    × ((v' m' : ℕ) → master_turn counted 1 1 ≡ next m' v' → Supervises 2 1 v')
    × ((v' : ℕ) → master_turn counted 1 1 ≢ wait_error v')
unfolding master_turn
master-Supervises_example =
    master-Supervises counted counted_laws 0 2 1 1 (omega arith) refl
      (more 2 0 1 1 (more 1 1 2 0 (more 0 2 1 1 first refl) refl) refl)
