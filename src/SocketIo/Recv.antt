-- ===== src/SocketIo/Recv.antt =====
-- PynServerRecvData reads the stream in order, and never past the bytes that it was asked for.
use mathlib.Core.List.{append_assoc}
use tcpframe.Prelude.{
  ℕ, zero, suc, ◌+◌, ◌-◌, ◌≤◌, ◌<◌, ◌≡◌, refl, sym, ap, subst, ◌∙◌, ◌⊎◌, inl, inr, true, Bool-cases,
  List, [], ◌++◌, ltb, leb, arith, Run, done, ◌>>=◌, Returns, Returns-map,
}
use tcpframe.Prelude.Int.{ℤ, pos, negsuc}
use tcpframe.Prelude.Bytes.{
  length, length-append, read_at, read_at_ext, read_at_split, write_at, write_at_outside,
  read_at-write_at,
}
use tcpframe.Os.{Os, OsLaws, ReadResult, got, closed, read_again, read_interrupted, read_failed}
use tcpframe.SocketIo.{Block, fill, recv_loop, recv_data}

module _ (os : Os) (laws : OsLaws os) (fd at : ℕ) where
  -- The bytes `bs` came in from `w` to `w'`, and stand from `from` on; the cells before `from` and
  -- behind the end of what was asked for are as they were. No more signals are to come than before.
  pub record Moved (w : os.World) (buf : Block) (from limit : ℕ) (bs : List ℕ) (buf' : Block)
      (w' : os.World) : Type 0 where
    pub stream : laws.incoming w fd ≡ bs ++ laws.incoming w' fd
    pub stored : read_at buf'.cells from (length bs) ≡ bs
    pub within : from + length bs ≤ limit
    pub outside : (i : ℕ) → (i < from) ⊎ (limit ≤ i) → buf'.cells i ≡ buf.cells i
    pub size : buf'.total ≡ buf.total
    pub calmer : laws.signals w' ≤ laws.signals w

  -- The returned number is the count of the bytes that came in; 0 is also what the end of the
  -- stream gives, and -1 an error, in both cases after some bytes may have come in.
  abbrev pub Received : os.World → Block → ℕ → ℕ → ℕ → ℤ × Block × os.World → Type 0
  Received w buf from limit before (ret, buf', w') =
      (bs : List ℕ) × ((ret ≡ pos (before + length bs)) ⊎ (ret ≡ pos 0) ⊎ (ret ≡ negsuc 0))
      × Moved w buf from limit bs buf' w'

  stays :
      (w w' : os.World) (buf : Block) (from limit : ℕ)
      → from ≤ limit
      → laws.incoming w fd ≡ laws.incoming w' fd
      → laws.signals w' ≤ laws.signals w
      → Moved w buf from limit [] buf w'
  unfolding read_at
  stays w w' buf from limit le same calm = record {
    calmer = calm;
    stream = same;
    stored = refl;
    within = omega arith;
    outside = λ i out. refl;
    size = refl;
  }

  join :
      (w w' w'' : os.World) (buf buf' buf'' : Block) (from limit : ℕ) (bs cs : List ℕ)
      → Moved w buf from limit bs buf' w'
      → Moved w' buf' (from + length bs) limit cs buf'' w''
      → Moved w buf from limit (bs ++ cs) buf'' w''
  join w w' w'' buf buf' buf'' from limit bs cs a b = record {
    stream = a.stream ∙ ap (λ x. bs ++ x) b.stream ∙ sym (append_assoc bs cs _);
    stored =
        rw (length-append bs cs, read_at_split buf''.cells from (length bs) (length cs), b.stored)
          (ap (λ x. x ++ cs) (kept ∙ a.stored));
    within = omega (arith, a.within, b.within, length-append {0} bs cs);
    outside = λ i out. ground (arith, a.within, b.within, a.outside i, b.outside i);
    size = b.size ∙ a.size;
    calmer = omega (arith, a.calmer, b.calmer);
  }
    where
      kept : read_at buf''.cells from (length bs) ≡ read_at buf'.cells from (length bs)
      kept = read_at_ext buf'.cells buf''.cells from (length bs) (λ i p q. b.outside i (inl q))

  filled :
      (w w' : os.World) (buf : Block) (from limit : ℕ) (bs : List ℕ)
      → from + length bs ≤ limit
      → laws.incoming w fd ≡ bs ++ laws.incoming w' fd
      → laws.signals w' ≤ laws.signals w
      → Moved w buf from limit bs (record buf { cells = write_at buf.cells from bs }) w'
  filled w w' buf from limit bs le e calm = record {
    calmer = calm;
    stream = e;
    stored = read_at-write_at buf.cells from bs;
    within = le;
    outside = λ i out. write_at_outside buf.cells from bs i (omega arith);
    size = refl;
  }

  -- Each turn of the loop, by what read() reports, where the turns that follow are right.
  turn-Received :
      (w : os.World) (buf : Block) (need count : ℕ) (r : ReadResult) (w' : os.World)
      (again : os.World → Block → ℕ → Run (ℤ × Block × os.World))
      → count < need
      → at + need ≤ buf.total
      → os.read w fd (need - count) ≡ (r, w')
      → ((buf' : Block) (count' : ℕ)
          → buf'.total ≡ buf.total
          → count' ≤ need
          → laws.signals w' + (need - count') < laws.signals w + (need - count)
          → Returns (Received w' buf' (at + count') (at + need) count') (again w' buf' count'))
      → Returns (Received w buf (at + count) (at + need) count) (elim r [
        | got bs ↦ fill buf (at + count) bs >>= λ buf'. again w' buf' (count + length bs)
        | closed ↦ done (pos 0, buf, w')
        | read_again ↦ done (pos count, buf, w')
        | read_interrupted ↦ again w' buf count
        | read_failed ↦ done (negsuc 0, buf, w')
      ])
  unfolding fill
  turn-Received w buf need count (got bs) w' again lt fits e ih =
      let (some_byte, few, front) = laws.read_takes w fd (need - count) bs w' e in
      let room : leb (at + count + length bs) buf.total ≡ true = ground arith in
      let buf' = record buf { cells = write_at buf.cells (at + count) bs } in
      let begin : Moved w buf (at + count) (at + need) bs buf' w' =
        filled w w' buf (at + count) (at + need) bs (omega arith) front
          (laws.read_keeps_signals w fd (need - count) _ w' e) in
      rw room (
        Returns-map _ _ (again w' buf' (count + length bs))
          (ih buf' (count + length bs) refl (omega arith)
            (omega (arith, laws.read_keeps_signals w fd (need - count) (got bs) w' e)))
          λ (ret, buf'', w'') (cs, code, moved). (
            bs ++ cs,
            elim code [
              | inl n ↦ inl (n ∙ ap pos (omega (arith, length-append {0} bs cs)))
              | inr other ↦ inr other
            ],
            join w w' w'' buf buf' buf'' _ _ bs cs begin
                (subst (λ x. Moved w' buf' x (at + need) cs buf'' w'') (omega arith) moved),
          ))
  turn-Received w buf need count closed w' again lt fits e ih = (
    [],
    inr (inl refl),
    stays w w' buf _ _ (omega arith) (sym (laws.read_nothing w fd _ _ w' e refl))
        (laws.read_keeps_signals w fd _ _ w' e),
  )
  turn-Received w buf need count read_again w' again lt fits e ih = (
    [],
    inl (ap pos (omega arith)),
    stays w w' buf _ _ (omega arith) (sym (laws.read_nothing w fd _ _ w' e refl))
        (laws.read_keeps_signals w fd _ _ w' e),
  )
  turn-Received w buf need count read_interrupted w' again lt fits e ih =
      let same = laws.read_nothing w fd (need - count) read_interrupted w' e refl in
      Returns-map _ _ (again w' buf count)
        (ih buf count refl (omega arith)
          (omega (arith, laws.read_interrupts w fd (need - count) w' e)))
        λ (ret, buf'', w'') (cs, code, moved). (
          cs,
          code,
          record {
            stream = sym same ∙ moved.stream;
            stored = moved.stored;
            within = moved.within;
            outside = moved.outside;
            size = moved.size;
            calmer = omega (arith, moved.calmer, laws.read_keeps_signals w fd _ _ w' e);
          },
        )
  turn-Received w buf need count read_failed w' again lt fits e ih = (
    [],
    inr (inr refl),
    stays w w' buf _ _ (omega arith) (sym (laws.read_nothing w fd _ _ w' e refl))
        (laws.read_keeps_signals w fd _ _ w' e),
  )

  recv_loop-Received :
      (k : ℕ) (w : os.World) (buf : Block) (need count : ℕ)
      → count ≤ need
      → at + need ≤ buf.total
      → laws.signals w + (need - count) < k
      → Returns
          (Received w buf (at + count) (at + need) count)
          (recv_loop os k w buf fd at need count)
  unfolding recv_loop
  recv_loop-Received zero w buf need count le fits fuel = absurd (omega arith)
  recv_loop-Received (suc k) w buf need count le fits fuel = elim (Bool-cases (ltb count need)) [
    | inr full ↦
        rw full ([], inl (ap pos (omega arith)), stays w w buf _ _ (omega arith) refl (omega arith))
    | inl more ↦ rw more (
        turn-Received w buf need count (os.read w fd (need - count)).0
          (os.read w fd (need - count)).1
          (λ w' buf' count'. recv_loop os k w' buf' fd at need count') (ground arith) fits refl
          λ buf' count' size le' less.
            recv_loop-Received k _ buf' need count' le' (omega arith) (omega arith))
  ]

  -- PynServerRecvData never writes outside the cells that it was asked to fill, and it returns: a
  -- positive result counts the bytes that it took from the front of the stream and stored in order.
  -- Enough rounds are the bytes asked for and the signals that may interrupt.
  pub recv_data-Received :
      (fuel : ℕ) (w : os.World) (buf : Block) (need : ℕ)
      → at + need ≤ buf.total
      → laws.signals w + need < fuel
      → Returns (Received w buf at (at + need) 0) (recv_data os fuel w buf fd at need)
  unfolding recv_data
  recv_data-Received fuel w buf need fits enough =
      let e : at + 0 ≡ at = omega arith in
      rw e at (recv_loop-Received fuel w buf need 0 (omega arith) fits (omega arith))
