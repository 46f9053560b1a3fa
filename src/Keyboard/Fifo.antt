-- ===== src/Keyboard/Fifo.antt =====
-- A queue of emulator/chips/ps2_keyboard_board.c as the list of the entries that wait in it.
use workbench.Common.{sym}
use workbench.Common.{subst}
use workbench.Common.{
  ℕ, zero, suc, ◌+◌, ◌%◌, ◌==◌, ◌≡◌, ◌<◌, ◌≤◌, ◌∙◌, ap, List, [], ◌∷◌, ◌++◌, arith, picked, passed,
  none, some,
}
use workbench.Chips.Memory.{Contents, store}
use workbench.Keyboard.Queue.{queue_size, ByteQueue, queue_put, kept}

-- So many entries from an index on, around the end.
unfoldable pub entries_from : ℕ → ℕ → Contents → List ℕ
entries_from zero at buf = []
entries_from (suc n) at buf = buf at ∷ entries_from n ((at + 1) % queue_size) buf

unfoldable pub held : ByteQueue → List ℕ
held q = entries_from q.count q.head q.entries

-- The indices are within the queue.
pub record IsRing (q : ByteQueue) : Type 0 where
  pub head : q.head < queue_size
  pub count : q.count ≤ queue_size

-- There is room for `n` more.
pub record HasRoom (n : ℕ) (q : ByteQueue) : Type 0 where
  pub head : q.head < queue_size
  pub count : q.count + n ≤ queue_size

entries_from-store :
    (n at b : ℕ) (buf : Contents)
    → at < queue_size
    → n < queue_size
    → entries_from (suc n) at (store ((at + n) % queue_size) b buf)
      ≡ entries_from n at buf ++ (b ∷ [])
unfolding entries_from store
entries_from-store zero at b buf h k =
    ap (λ (v : ℕ). v ∷ []) (picked ((at + 0) % queue_size == at) b (buf at) (ground arith))
entries_from-store (suc n) at b buf h k =
    ap
      (λ (v : ℕ).
        v ∷ entries_from (suc n) ((at + 1) % queue_size) (store ((at + suc n) % queue_size) b buf))
      (passed ((at + suc n) % queue_size == at) b (buf at) (ground arith))
    ∙ ap (λ (j : ℕ). buf at ∷ entries_from (suc n) ((at + 1) % queue_size) (store j b buf))
        {y = ((at + 1) % queue_size + n) % queue_size} (omega arith)
    ∙ ap (λ (q : List ℕ). buf at ∷ q)
        (entries_from-store n ((at + 1) % queue_size) b buf (omega arith) (omega arith))

pub put-held :
    (b : ℕ) (q : ByteQueue) → HasRoom 1 q → held (kept (queue_put b q) q) ≡ held q ++ (b ∷ [])
unfolding held queue_put kept
put-held b q r =
    ap (λ o. held (kept o q))
      (passed (q.count == queue_size) none (some _) (ground (arith, r.count)))
    ∙ ap (λ (n : ℕ). entries_from n q.head (store ((q.head + q.count) % queue_size) b q.entries))
        {y = suc q.count} (omega arith)
    ∙ entries_from-store q.count q.head b q.entries r.head (omega (arith, r.count))

pub put-HasRoom : (n b : ℕ) (q : ByteQueue) → HasRoom (suc n) q → HasRoom n (kept (queue_put b q) q)
unfolding queue_put kept
put-HasRoom n b q r =
    subst (λ o. HasRoom n (kept o q))
      (sym (passed (q.count == queue_size) none (some _) (ground (arith, r.count))))
      (record { head = r.head; count = omega (arith, r.count) })
