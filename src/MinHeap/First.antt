-- ===== src/MinHeap/First.antt =====
-- MinheapGetTopElement and MinheapPop speak of the same node.
use tcpframe.Prelude.{suc, ◌-◌, ◌<◌, ◌≡◌, refl, false, ◌==◌, arith, done, Returns, Returns-bind}
use tcpframe.MinHeap.{null, MinHeap, shift_down, set_index, finish_pop, get_top_element, pop}
use tcpframe.MinHeap.Order.{IsValid, load-done}
use tcpframe.MinHeap.Remove.{IsValid-IsHeapBut, down-Sifted}

pub get_top_element-first :
    (h : MinHeap) → IsValid h → 0 < h.node_used → get_top_element h ≡ done (h.slots 0)
unfolding get_top_element
get_top_element-first h v pos = ground (arith, v.fits, load-done h 0)

pub pop-first :
    (h : MinHeap) → IsValid h → 0 < h.node_used → Returns (λ (p, h'). p ≡ h.slots 0) (pop h)
unfolding pop finish_pop set_index
pop-first h v pos =
    let n = h.node_used - 1 in
    let size : h.node_used ≡ suc n = omega arith in
    let busy : (h.node_used == 0) ≡ false = ground arith in
    let solid : (h.slots n == null) ≡ false = ground (arith, v.nonnull n) in
    let nonnull : (h.slots 0 == null) ≡ false = ground (arith, v.nonnull 0) in
    rw (busy, load-done h 0 (omega (arith, v.fits)), load-done h n (omega (arith, v.fits)), solid)
      (Returns-bind _ _ (shift_down h 0 (h.slots n)) _
        (down-Sifted h 0 (IsValid-IsHeapBut h 0 v pos) n size (omega arith) (omega arith))
        λ (r, h') (ok, s). rw (ok, nonnull) refl)

pub get_top_element-bare : (h : MinHeap) → h.node_used ≡ 0 → get_top_element h ≡ done null
unfolding get_top_element
get_top_element-bare h e = ground (arith, e)
