-- ===== src/Client/Ready.antt =====
-- What a taken place waits for: its client sends or receives, by the callback that is registered.
use tcpframe.Prelude.{
  ℕ, ◌<◌, ◌≡◌, sym, ◌∙◌, subst, true, false, Bool-cases, inl, inr, ◌==◌, some, arith, update,
}
use tcpframe.Os.{event_readable, event_writable}
use tcpframe.Client.Types.{ClientFd, send_to_server, recv_from_server}
use tcpframe.Client.Places.{is_open}

-- The client waits to write the rest of its request, or to read the response.
pub data Ready (c : ClientFd) : Type 0 where
  sending :
      c.mask ≡ event_writable
      → c.w_func_proc ≡ some send_to_server
      → c.sended_len < c.send_buf_len
      → Ready c
  receiving :
      c.mask ≡ event_readable → c.r_func_proc ≡ some recv_from_server → 0 < c.send_buf_len → Ready c

-- Every client of the first `n` places is ready.
abbrev pub Armed : ℕ → (ℕ → ClientFd) → Type 0
Armed n f = (i : ℕ) → i < n → is_open (f i) ≡ true → Ready (f i)

pub Ready-some_request : (c : ClientFd) → Ready c → 0 < c.send_buf_len
Ready-some_request c (sending mask func left) = omega (arith, left)
Ready-some_request c (receiving mask func some_byte) = some_byte

pub Armed-update :
    (n : ℕ) (f : ℕ → ClientFd) (i : ℕ) (c : ClientFd)
    → Armed n f
    → (is_open c ≡ true → Ready c)
    → Armed n (update f i c)
Armed-update n f i c armed ready j lt o = elim (Bool-cases (i == j)) [
  | inl hit ↦ rw hit (ready (rw hit at o))
  | inr miss ↦ rw miss (armed j lt (rw miss at o))
]

-- A client that differs in its times, and in what it has received.
pub Ready-keep :
    (c c' : ClientFd)
    → Ready c
    → c'.mask ≡ c.mask
    → c'.w_func_proc ≡ c.w_func_proc
    → c'.r_func_proc ≡ c.r_func_proc
    → c'.sended_len ≡ c.sended_len
    → c'.send_buf_len ≡ c.send_buf_len
    → Ready c'
Ready-keep c c' (sending mask func left) m w r a b =
    sending (m ∙ mask) (w ∙ func) (omega (arith, left, a, b))
Ready-keep c c' (receiving mask func some_byte) m w r a b =
    receiving (m ∙ mask) (r ∙ func) (omega (arith, some_byte, b))

-- Where only the place `i` has changed, and its client is ready.
pub Armed-elsewhere :
    (n : ℕ) (f g : ℕ → ClientFd) (i : ℕ)
    → Armed n f
    → ((j : ℕ) → (i == j) ≡ false → g j ≡ f j)
    → Ready (g i)
    → Armed n g
Armed-elsewhere n f g i armed same ready j lt o = elim (Bool-cases (i == j)) [
  | inl hit ↦ let e : i ≡ j = ground arith in subst (λ k. Ready (g k)) e ready
  | inr miss ↦
      let e = same j miss in subst Ready (sym e) (armed j lt (subst (λ c. is_open c ≡ true) e o))
]
