-- ===== src/Client/Local.antt =====
-- What an operation on one client leaves: the array right, and the other clients as they were.
use tcpframe.Prelude.{◌==◌, sym, subst, ℕ, ◌≤◌, ◌<◌, ◌≡◌, refl, ap, ◌∙◌, true, false, arith}
use tcpframe.Client.Types.{ClientFd, Worker, with_client}
use tcpframe.Client.Places.{is_open, Fits, IsSound, Sound-same}
use tcpframe.Client.Ready.{Ready, Armed, Armed-elsewhere}
use tcpframe.Client.Open.{Partly, update_other, Kept, Fits-keep, is_open-keep, update_self}

-- The array is right, the client at `i` is still there, and those of the other places are as before.
pub record Touched (s : Worker) (i : ℕ) (s' : Worker) : Type 0 where
  pub kept : Partly s s'
  pub taken : is_open (s'.clients i) ≡ true
  pub others : (j : ℕ) → (i == j) ≡ false → s'.clients j ≡ s.clients j

pub Partly-trans : (a b c : Worker) → Partly a b → Partly b c → Partly a c
Partly-trans a b c p q = record {
  sound = q.sound;
  places = q.places ∙ p.places;
  stopped = λ h. q.stopped (p.stopped h);
}

pub Kept-trans : (a b c : Worker) → Kept a b → Kept b c → Kept a c
Kept-trans a b c p q = record {
  sound = q.sound;
  places = q.places ∙ p.places;
  stopped = λ h. q.stopped (p.stopped h);
  armed = λ h. q.armed (p.armed h);
}

-- An operation on the client at `i` that leaves the array right, all the clients ready that were, and
-- the clients of the other places as they were.
pub record Local (i : ℕ) (s s' : Worker) : Type 0 where
  pub kept : Kept s s'
  pub others :
      (j : ℕ) → (i == j) ≡ false → is_open (s.clients j) ≡ true → s'.clients j ≡ s.clients j

pub Local-refl : (s : Worker) (i : ℕ) → IsSound s → Local i s s
Local-refl s i v = record {
  kept = record { sound = v; places = refl; stopped = λ h. h; armed = λ a. a };
  others = λ j miss o. refl;
}

pub Local-trans : (i : ℕ) (a b c : Worker) → Local i a b → Local i b c → Local i a c
Local-trans i a b c p q = record {
  kept = Kept-trans a b c p.kept q.kept;
  others = λ j miss o.
      q.others j miss (subst (λ x. is_open x ≡ true) (sym (p.others j miss o)) o)
      ∙ p.others j miss o;
}

-- A touched place whose client is ready in the end.
pub Touched-Local :
    (s : Worker) (i : ℕ) (s' : Worker)
    → Touched s i s'
    → (Armed s.need_client_num s.clients → Ready (s'.clients i))
    → Local i s s'
Touched-Local s i s' t ready = record {
  kept = record {
    sound = t.kept.sound;
    places = t.kept.places;
    stopped = t.kept.stopped;
    armed = λ a.
        subst (λ n. Armed n s'.clients) (sym t.kept.places)
          (Armed-elsewhere s.need_client_num s.clients s'.clients i a t.others (ready a));
  };
  others = λ j miss o. t.others j miss;
}

-- What a changed client must satisfy to take its old place.
pub record Same (c c' : ClientFd) : Type 0 where
  pub fd : c'.fd ≡ c.fd
  pub pointers : c'.pep_loop ≡ c.pep_loop
  pub sent : c'.sended_len ≤ c'.send_buf_len
  pub send_room : c'.send_buf_len ≤ 4097
  pub recv_room : c'.recv_buf_len ≤ 4096

pub with_client-Touched :
    (s : Worker) (i : ℕ) (c : ClientFd)
    → IsSound s
    → i < s.need_client_num
    → is_open (s.clients i) ≡ true
    → Same (s.clients i) c
    → Touched s i (with_client s i c)
with_client-Touched s i c v lt o same =
    let stays = is_open-keep (s.clients i) c same.fd in
    record {
      kept = record {
        sound =
            Sound-same s.need_client_num s.live_client_num s.clients s.done_requests
              s.need_request_num i c v lt
              (Fits-keep s.need_client_num i (s.clients i) c (v.each i lt) same.fd same.pointers
                same.sent same.send_room same.recv_room)
              stays;
        places = refl;
        stopped = λ h. h;
      };
      taken = ap is_open (update_self s.clients i c) ∙ stays ∙ o;
      others = λ j miss. update_other s.clients i j c miss;
    }

-- A client whose lengths are as before.
pub lengths-Same :
    (n i : ℕ) (c c' : ClientFd)
    → Fits n i c
    → c'.fd ≡ c.fd
    → c'.pep_loop ≡ c.pep_loop
    → c'.sended_len ≡ c.sended_len
    → c'.send_buf_len ≡ c.send_buf_len
    → c'.recv_buf_len ≡ c.recv_buf_len
    → Same c c'
lengths-Same n i c c' u same ptr a b d = record {
  fd = same;
  pointers = ptr;
  sent = ground (arith, a, b, u.sent);
  send_room = ground (arith, b, u.send_room);
  recv_room = ground (arith, d, u.recv_room);
}
