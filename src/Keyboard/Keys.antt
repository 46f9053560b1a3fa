-- ===== src/Keyboard/Keys.antt =====
-- The keys of the keyboard: ps2_board_queue_key of emulator/chips/ps2_keyboard_board.c against
-- the list of its queued entries.
use workbench.Common.{passed}
use workbench.Common.{picked}
use workbench.Common.{
  ℕ, zero, suc, ◌+◌, ◌≡◌, ◌∙◌, refl, ap, sym, Bool, true, false, Option, none, some, if◌then◌else◌,
  ltb, List, [], ◌∷◌, ◌++◌, length, append_assoc, arith, bit_or,
}
use workbench.Keyboard.Queue.{queue_size, last_of_key, ByteQueue, queue_put, kept}
use workbench.Keyboard.Board.{KeyboardBoard, queue_codes, ps2_board_queue_key}
use workbench.Keyboard.Fifo.{held, entries_from, IsRing, HasRoom, put-held, put-HasRoom}

-- A key whose last code is `code`.
unfoldable pub key_codes : List ℕ → ℕ → List ℕ
key_codes [] code = code ∷ []
key_codes (first ∷ front) code = first ∷ key_codes front code

-- The entries of the keys that wait.
unfoldable pub held_keys : Option KeyboardBoard → Option (List ℕ)
held_keys none = none
held_keys (some s) = some (held s.keys)

-- A list of at most the queue's size that takes all of the entries, or none of them.
unfoldable pub take_all : List ℕ → List ℕ → Option (List ℕ)
take_all new old = if ltb queue_size (length old + length new) then none else some (old ++ new)

entries_from-length : (q : ByteQueue) → length (held q) ≡ q.count
unfolding held entries_from
entries_from-length q = counted q.count q.head
  where
    counted : (n at : ℕ) → length (entries_from n at q.entries) ≡ n
    counted zero at = refl
    counted (suc n) at = ap suc (counted n _)

length-key_codes : (front : List ℕ) (code : ℕ) → length (key_codes front code) ≡ suc (length front)
unfolding key_codes
length-key_codes [] code = refl
length-key_codes (first ∷ front) code = ap suc (length-key_codes front code)

codes-held :
    (front : List ℕ) (code : ℕ) (q : ByteQueue)
    → HasRoom (suc (length front)) q
    → held (queue_codes (key_codes front code) q)
      ≡ held q ++ key_codes front (bit_or code last_of_key)
unfolding queue_codes key_codes
codes-held [] code q r = put-held (bit_or code last_of_key) q r
codes-held (first ∷ []) code q r =
    put-held (bit_or code last_of_key) (kept (queue_put first q) q) (put-HasRoom 1 first q r)
    ∙ ap (λ (h : List ℕ). h ++ (bit_or code last_of_key ∷ []))
        (put-held first q (record { head = r.head; count = omega (arith, r.count) }))
    ∙ append_assoc (held q) (first ∷ []) (bit_or code last_of_key ∷ [])
codes-held (first ∷ (second ∷ front)) code q r =
    codes-held (second ∷ front) code (kept (queue_put first q) q)
      (put-HasRoom (suc (suc (length front))) first q r)
    ∙ ap (λ (h : List ℕ). h ++ key_codes (second ∷ front) (bit_or code last_of_key))
        (put-held first q (record { head = r.head; count = omega (arith, r.count) }))
    ∙ append_assoc (held q) (first ∷ []) (key_codes (second ∷ front) (bit_or code last_of_key))

-- A key goes into the queue behind the entries that wait, with the flag on its last code, or
-- leaves the queue alone where its codes do not all fit.
pub queue_key-held :
    (front : List ℕ) (code : ℕ) (s : KeyboardBoard)
    → IsRing s.keys
    → held_keys (ps2_board_queue_key (key_codes front code) s)
      ≡ take_all (key_codes front (bit_or code last_of_key)) (held s.keys)
unfolding held_keys ps2_board_queue_key take_all
queue_key-held front code s v = with_full (ltb queue_size (s.keys.count + suc (length front))) refl
  where
    new : List ℕ
    new = key_codes front (bit_or code last_of_key)

    fits :
        ltb queue_size (s.keys.count + length (key_codes front code))
        ≡ ltb queue_size (s.keys.count + suc (length front))
    fits = ap (λ (n : ℕ). ltb queue_size (s.keys.count + n)) (length-key_codes front code)

    fits_list :
        ltb queue_size (length (held s.keys) + length new)
        ≡ ltb queue_size (s.keys.count + suc (length front))
    fits_list =
        ap (λ (n : ℕ). ltb queue_size (n + length new)) (entries_from-length s.keys)
        ∙ ap (λ (n : ℕ). ltb queue_size (s.keys.count + n))
            (length-key_codes front (bit_or code last_of_key))

    queued : Option KeyboardBoard
    queued = some (record s { keys = queue_codes (key_codes front code) s.keys })

    with_full :
        (full : Bool)
        → ltb queue_size (s.keys.count + suc (length front)) ≡ full
        → held_keys
            (if ltb queue_size (s.keys.count + length (key_codes front code)) then none else queued)
          ≡ (if ltb queue_size (length (held s.keys) + length new)
              then none
              else some (held s.keys ++ new))
    with_full true h =
        ap held_keys (picked _ none queued (fits ∙ h))
        ∙ sym (picked _ none (some (held s.keys ++ new)) (fits_list ∙ h))
    with_full false h =
        ap held_keys (passed _ none queued (fits ∙ h))
        ∙ ap some
            (codes-held front code s.keys (record { head = v.head; count = ground (arith, h) }))
        ∙ sym (passed _ none (some (held s.keys ++ new)) (fits_list ∙ h))
