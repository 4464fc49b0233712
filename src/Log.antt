-- ===== src/Log.antt =====
-- src/server_log.c and include/server_log.h: the log of a process and the rotation of its files.
--
-- The files are named by the number of their suffix: 0 is the log itself, `i` the file "name.i". The
-- file system is a parameter. The texts that vsnprintf, strftime and "%d" give are arguments; the
-- mutex, which only threads would contend for, is left out.
pub mod Rotation
pub mod Message
use tcpframe.Prelude.{
  ℕ, zero, suc, ◌+◌, ◌-◌, ltb, leb, not, ◌&&◌, ◌==◌, Bool, true, false, if◌then◌else◌, List, [],
  ◌∷◌, ◌++◌, Option, none, some, Run, done, fault, ◌>>=◌,
}
use tcpframe.Prelude.Int.{ℤ, pos, negsuc}
use tcpframe.Prelude.Bytes.{length, take}
use tcpframe.Prelude.Text.{codes, starts_with}

-- enum COMM_SYSTEM_VARS
pub data LogStd : Type 0 where
  fd_stdout fd_stdin fd_stderr fd_devnull fd_file : LogStd

abbrev pub min_logfile_size : ℕ
min_logfile_size = 1048576

abbrev pub max_path_len : ℕ
max_path_len = 512

abbrev pub max_logmsg_len : ℕ
max_logmsg_len = 8192

abbrev pub log_path_len : ℕ
log_path_len = 80

-- struct __server_log, without the mutex, the mask and the date, which are not read.
pub record LogHandle : Type 0 where
  pub log_fd : ℤ
  pub log_size : ℕ
  pub log_level : ℕ
  pub log_file_count : ℕ
  pub log_std : LogStd
  pub log_filename : List ℕ

-- What the log takes from the system.
pub record Fs : Type 1 where
  pub World : Type 0
  pub stat : World → ℕ → Option ℕ
  pub remove : World → ℕ → World
  pub rename : World → ℕ → ℕ → World
  pub open_log : World → Option ℕ × World
  pub close : World → ℕ → World
  pub write : World → ℕ → List ℕ → World
  pub print : World → List ℕ → World
  pub malloc : World → Bool × World
  pub mutex_init : World → Bool

abbrev pub at_least : ℕ → ℤ → ℕ
at_least low (pos n) = if ltb n low then low else n
at_least low (negsuc n) = low

-- szLogOut; a level above 3 is read behind its end.
abbrev pub level_name : ℕ → Option (List ℕ)
level_name zero = some (codes "ERROR")
level_name (suc zero) = some (codes "WARN")
level_name (suc (suc zero)) = some (codes "INFO")
level_name (suc (suc (suc zero))) = some (codes "DEBUG")
level_name (suc (suc (suc (suc n)))) = none

abbrev pub is_file : LogStd → Bool
is_file fd_file = true
is_file _ = false

abbrev pub is_console : LogStd → Bool
is_console fd_stdout = true
is_console fd_stderr = true
is_console _ = false

abbrev pub with_std : LogHandle → LogStd → LogHandle
with_std h std = record h { log_std = std }

-- The message with the place in the source that it comes from, as snprintf cuts it.
abbrev pub with_place : List ℕ → List ℕ → List ℕ → List ℕ
with_place filename place text = take (max_path_len - 2) (
    codes "<"
    ++ (filename ++ (codes ":" ++ (place ++ (codes ">:" ++ take (max_logmsg_len - 1) text)))))

-- A line of the log, before snprintf cuts it.
abbrev pub dated : List ℕ → List ℕ → List ℕ → List ℕ
dated name date msg =
    codes "[" ++ (name ++ (codes "]" ++ (date ++ (codes ":" ++ (msg ++ (10 ∷ []))))))

module _ (fs : Fs) where
  open fs use {World, stat, remove, rename, open_log, close, write, print, malloc, mutex_init}

  abbrev pub exists : World → ℕ → Bool
  exists w i = elim (stat w i) [ none ↦ false | some size ↦ true ]

  -- CheckFileSize: a handle that is not NULL is never too large, and NULL is dereferenced.
  unfoldable pub check_file_size : World → Option LogHandle → Run Bool
  check_file_size w (some h) = done false
  check_file_size w none = fault

  -- close() of a descriptor that may be -1
  abbrev pub close_log : World → ℤ → World
  close_log w (pos fd) = close w fd
  close_log w (negsuc n) = w

  -- write() to a descriptor that may be -1
  abbrev pub write_log : World → ℤ → List ℕ → World
  write_log w (pos fd) text = write w fd text
  write_log w (negsuc n) text = w

  -- A file is renamed where it is there.
  abbrev pub rename_file : World → ℕ → ℕ → World
  rename_file w i j = if exists w i then rename w i j else w

  -- The loop of the rotation, from `i` down to 1.
  unfoldable pub shift_from : ℕ → World → World
  shift_from zero w = w
  shift_from (suc i) w = shift_from i (rename_file w (suc i) (suc (suc i)))

  -- __roll_oldfile2new; without a new file the handle is freed.
  unfoldable pub roll_oldfile2new : World → LogHandle → Option LogHandle × World
  unfolding shift_from
  roll_oldfile2new w h =
      let n = h.log_file_count in
      let w1 = close_log w h.log_fd in
      let w2 = if exists w1 n then remove w1 n else w1 in
      let w3 = shift_from (n - 1) w2 in
      let (opened, w4) = open_log (rename_file w3 0 1) in
      elim opened [ none ↦ (none, w4) | some fd ↦ (some (record h { log_fd = pos fd }), w4) ]

  -- __print_log. Writing through a handle that the rotation has freed is a fault. The int that is
  -- allocated and dropped is left out.
  unfoldable pub print_log : World → LogHandle → ℕ → List ℕ → List ℕ → Run (LogHandle × World)
  unfolding check_file_size roll_oldfile2new
  print_log w h level date msg = elim (level_name level) [
    | none ↦ fault
    | some name ↦
        let text = take (max_logmsg_len - 1) (dated name date msg) in
        let (rolled, w1) = roll_oldfile2new w h in
        let to_rolled : Run (LogHandle × World) = elim rolled [
          | none ↦ fault
          | some h1 ↦ done (h1, write_log w1 h1.log_fd text)
        ] in
        let to_file : Run (LogHandle × World) = check_file_size w (some h) >>= λ large.
        if large then to_rolled else done (h, write_log w h.log_fd text) in
        let to_console : Run (LogHandle × World) =
          done (h, if is_console h.log_std then print w (text ++ (10 ∷ [])) else w) in
        elim h.log_fd [
          | negsuc n ↦ to_console
          | pos fd ↦ if ltb 0 fd && is_file h.log_std then to_file else to_console
        ]
  ]

  -- __LogMsg: `text` is the message that vsnprintf formats, `place` the line number in decimals.
  unfoldable pub log_msg :
      World
      → Option LogHandle
      → Option (List ℕ)
      → List ℕ
      → ℕ
      → List ℕ
      → List ℕ
      → Run (Option LogHandle × World)
  unfolding print_log
  log_msg w none filename place level date text = done (none, w)
  log_msg w (some h) none place level date text = done (some h, w)
  log_msg w (some h) (some filename) place level date text =
      if ltb h.log_level level
      then done (some h, w)
      else print_log w h level date (with_place filename place text) >>= λ (h', w').
          done (some h', w')

  -- CreateLogfileHandle: what it returns, and what the global handle is left as. A name that fills
  -- the array has no end, or is written behind it. The int that is allocated and dropped is left out.
  unfoldable pub create_logfile_handle :
      World
      → Option (List ℕ)
      → ℤ
      → ℤ
      → ℤ
      → Option LogHandle
      → Run (Option LogHandle × Option LogHandle × World)
  create_logfile_handle w none level size count global = done (none, global, w)
  create_logfile_handle w (some name) level size count global =
      let (room, w1) = malloc w in
      let h : LogHandle = record {
        log_fd = pos 0;
        log_size = at_least min_logfile_size size;
        log_level = at_least 0 level;
        log_file_count = at_least 3 count;
        log_std = fd_file;
        log_filename = name;
      } in
      let (opened, w2) = open_log w1 in
      let to_file : Run (Option LogHandle × Option LogHandle × World) = elim opened [
        | none ↦ done (none, none, w2)
        | some fd ↦ let h1 = record h { log_fd = pos fd } in done (some h1, some h1, w2)
      ] in
      if not room
      then done (none, none, w1)
      else if leb log_path_len (length name)
      then fault
      else if not (mutex_init w1)
      then done (none, some h, w1)
      else if starts_with (codes "/dev/null") name
      then done (some (with_std h fd_devnull), some (with_std h fd_devnull), w1)
      else if starts_with (codes "stdout") name
      then done (some (with_std h fd_stdout), some (with_std h fd_stdout), w1)
      else to_file

  -- DestroyLogfileHandle, whose argument is the global handle at each of its calls. The handle of a
  -- console holds the descriptor 0, which is closed too.
  unfoldable pub destroy_logfile_handle : World → Option LogHandle → Option LogHandle × World
  destroy_logfile_handle w none = (none, w)
  destroy_logfile_handle w (some h) = (none, close_log w h.log_fd)
