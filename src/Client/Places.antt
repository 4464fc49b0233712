-- ===== src/Client/Places.antt =====
-- The array of the clients: which places are taken, and what holds of every place.
use tcpframe.Prelude.{
  ℕ, zero, suc, ◌+◌, ◌%◌, ◌≤◌, ◌<◌, ◌≡◌, refl, Bool, true, false, Bool-cases, inl, inr, subst, ◌==◌,
  if◌then◌else◌, update, none, some, arith,
}
use tcpframe.Client.Types.{ClientFd, Worker, incr, decr, word}

abbrev pub is_open : ClientFd → Bool
is_open c = elim c.fd [ none ↦ false | some fd ↦ true ]

-- How many of the first `n` places are taken.
unfoldable pub occupied : ℕ → (ℕ → ClientFd) → ℕ
occupied zero f = 0
occupied (suc n) f = occupied n f + (if is_open (f n) then 1 else 0)

pub occupied-le : (n : ℕ) (f : ℕ → ClientFd) → occupied n f ≤ n
unfolding occupied
occupied-le zero f = omega arith
occupied-le (suc n) f = ground (arith, occupied-le n f)

pub occupied_none :
    (n : ℕ) (f : ℕ → ClientFd) → ((i : ℕ) → i < n → is_open (f i) ≡ false) → occupied n f ≡ 0
unfolding occupied
occupied_none zero f free = refl
occupied_none (suc n) f free =
    ground (arith, free n, occupied_none n f (λ i lt. free i (omega arith)))

occupied-update_beyond :
    (n : ℕ) (f : ℕ → ClientFd) (i : ℕ) (c : ClientFd)
    → n ≤ i
    → occupied n (update f i c) ≡ occupied n f
unfolding occupied
occupied-update_beyond zero f i c le = refl
occupied-update_beyond (suc n) f i c le =
    let miss : (i == n) ≡ false = ground arith in
    rw miss (ground (arith, occupied-update_beyond n f i c))

-- A place that is written counts as it is now, and no longer as it was.
pub occupied-update :
    (n : ℕ) (f : ℕ → ClientFd) (i : ℕ) (c : ClientFd)
    → i < n
    → occupied n (update f i c) + (if is_open (f i) then 1 else 0)
      ≡ occupied n f + (if is_open c then 1 else 0)
unfolding occupied
occupied-update zero f i c lt = absurd (omega arith)
occupied-update (suc n) f i c lt = elim (Bool-cases (i == n)) [
  | inl hit ↦
      let e : i ≡ n = ground arith in
      rw (hit, occupied-update_beyond n f i c (omega arith), e) (omega arith)
  | inr miss ↦ rw miss (omega (arith, occupied-update n f i c (ground arith)))
]

-- The place `i` of `n`: a descriptor stands where its remainder points, and the lengths stay in the
-- buffers.
pub record Fits (n i : ℕ) (c : ClientFd) : Type 0 where
  pub placed : (fd : ℕ) → c.fd ≡ some fd → fd % n ≡ i
  pub attached : is_open c ≡ true → c.pep_loop ≡ true
  pub sent : c.sended_len ≤ c.send_buf_len
  pub send_room : c.send_buf_len ≤ 4097
  pub recv_room : c.recv_buf_len ≤ 4096

-- `live` is the number of the places that are taken, and no more responses are counted than were
-- asked for.
pub record Sound (n live : ℕ) (f : ℕ → ClientFd) (d r : ℕ) : Type 0 where
  pub some_client : 0 < n
  pub few : n < word
  pub each : (i : ℕ) → i < n → Fits n i (f i)
  pub live_eq : live ≡ occupied n f
  pub done_le : d ≤ r
  pub few_requests : r < word

abbrev pub IsSound : Worker → Type 0
IsSound s = Sound s.need_client_num s.live_client_num s.clients s.done_requests s.need_request_num

module _ (n live : ℕ) (f : ℕ → ClientFd) (d r i : ℕ) (c : ClientFd) (v : Sound n live f d r)
    (lt : i < n) (fits : Fits n i c) where
  each_update : (j : ℕ) → j < n → Fits n j (update f i c j)
  each_update j p = elim (Bool-cases (i == j)) [
    | inl hit ↦ let e : i ≡ j = ground arith in rw hit (subst (λ k. Fits n k c) e fits)
    | inr miss ↦ rw miss (v.each j p)
  ]

  -- A place stays as it is, taken or free.
  pub Sound-same : is_open c ≡ is_open (f i) → Sound n live (update f i c) d r
  Sound-same e = record {
    some_client = v.some_client;
    few = v.few;
    each = each_update;
    live_eq = ground (arith, v.live_eq, occupied-update n f i c lt, e);
    done_le = v.done_le;
    few_requests = v.few_requests;
  }

  -- A taken place becomes free.
  pub Sound-close :
      is_open (f i) ≡ true → is_open c ≡ false → Sound n (decr live) (update f i c) d r
  Sound-close was now = record {
    some_client = v.some_client;
    few = v.few;
    each = each_update;
    live_eq =
        ground (arith, v.live_eq, v.few, occupied-update n f i c lt, occupied-le n f, was, now);
    done_le = v.done_le;
    few_requests = v.few_requests;
  }

  -- A free place is taken.
  pub Sound-open :
      is_open (f i) ≡ false
      → is_open c ≡ true
      → Sound n (incr live) (update f i c) d r × (incr live ≡ live + 1)
  Sound-open was now = (
    record {
      some_client = v.some_client;
      few = v.few;
      each = each_update;
      live_eq = ground (
        arith,
        v.live_eq,
        v.few,
        occupied-update n f i c lt,
        occupied-le n (update f i c),
        was,
        now,
      );
      done_le = v.done_le;
      few_requests = v.few_requests;
    },
    ground (
      arith,
      v.live_eq,
      v.few,
      occupied-update n f i c lt,
      occupied-le n (update f i c),
      was,
      now,
    ),
  )
