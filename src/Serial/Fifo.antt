-- ===== src/Serial/Fifo.antt =====
-- The queue of emulator/chips/serial_usb.c as a list of the bytes that wait in it.
use workbench.Common.{
  sym, not, ap, ℕ, zero, suc, ◌+◌, ◌-◌, ◌%◌, ◌==◌, ◌≡◌, ◌<◌, ◌∙◌, refl, Bool, true, false, Option,
  none, some, if◌then◌else◌, ltb, List, [], ◌∷◌, ◌++◌, length, arith, picked, passed,
}
use workbench.Chips.Memory.{Contents, store}
use workbench.Serial.Queue.{
  buf_size, SerialUsb, queue_empty, queue_full, queue_pop, serial_usb_queue_byte,
  serial_usb_queue_count, queued_or,
}

-- So many entries of the buffer from an index on, around its end.
unfoldable pub entries : ℕ → ℕ → Contents → List ℕ
entries zero at buf = []
entries (suc n) at buf = buf at ∷ entries n ((at + 1) % buf_size) buf

unfoldable pub waiting : SerialUsb → List ℕ
waiting s = entries (serial_usb_queue_count s) s.tail s.buf

-- The indices are within the buffer.
pub record IsRing (s : SerialUsb) : Type 0 where
  pub head : s.head < buf_size
  pub tail : s.tail < buf_size

-- What a queue is asked for: to take a byte, and to give one.
pub data Request : Type 0 where
  receive : ℕ → Request
  send : Request

unfoldable pub serve : Request → SerialUsb → Option ℕ × SerialUsb
serve (Request.receive b) s = (none, queued_or (serial_usb_queue_byte b s) s (λ t. t))
serve Request.send s = if queue_empty s then (none, s) else (some (queue_pop s).0, (queue_pop s).1)

-- The same of a list with a limit.
unfoldable pub serve_list : Request → List ℕ → Option ℕ × List ℕ
serve_list (Request.receive b) q =
    (none, if ltb (length q) (buf_size - 1) then q ++ (b ∷ []) else q)
serve_list Request.send [] = (none, [])
serve_list Request.send (b ∷ q) = (some b, q)

entries-length : (n at : ℕ) (buf : Contents) → length (entries n at buf) ≡ n
unfolding entries
entries-length zero at buf = refl
entries-length (suc n) at buf = ap suc (entries-length n ((at + 1) % buf_size) buf)

store-same : (at b : ℕ) (buf : Contents) → store at b buf at ≡ b
unfolding store
store-same at b buf = ground arith

store-other : (at j b : ℕ) (buf : Contents) → (at == j) ≡ false → store at b buf j ≡ buf j
unfolding store
store-other at j b buf h = passed (at == j) b (buf j) h

-- A byte behind the last entry.
entries-store :
    (n at b : ℕ) (buf : Contents)
    → at < buf_size
    → n < buf_size
    → entries (suc n) at (store ((at + n) % buf_size) b buf) ≡ entries n at buf ++ (b ∷ [])
unfolding entries
entries-store zero at b buf h k =
    ap (λ (j : ℕ). store j b buf at ∷ []) {y = at} (omega arith)
    ∙ ap (λ (v : ℕ). v ∷ []) (store-same at b buf)
entries-store (suc n) at b buf h k =
    ap
      (λ (v : ℕ). v ∷ entries (suc n) ((at + 1) % buf_size) (store ((at + suc n) % buf_size) b buf))
      (store-other ((at + suc n) % buf_size) at b buf (ground arith))
    ∙ ap (λ (j : ℕ). buf at ∷ entries (suc n) ((at + 1) % buf_size) (store j b buf))
        {y = ((at + 1) % buf_size + n) % buf_size} (omega arith)
    ∙ ap (λ (q : List ℕ). buf at ∷ q)
        (entries-store n ((at + 1) % buf_size) b buf (omega arith) (omega arith))

count_lem : (s : SerialUsb) → IsRing s → ((s.tail + serial_usb_queue_count s) % buf_size ≡ s.head)
unfolding serial_usb_queue_count
count_lem s v = ground (arith, v.head, v.tail)

count-lt : (s : SerialUsb) → IsRing s → serial_usb_queue_count s < buf_size
unfolding serial_usb_queue_count
count-lt s v = ground (arith, v.head, v.tail)

-- There is room up to one entry less than the size.
full_lem :
    (s : SerialUsb) → IsRing s → ltb (serial_usb_queue_count s) (buf_size - 1) ≡ not (queue_full s)
unfolding serial_usb_queue_count queue_full
full_lem s v = ground (arith, v.head, v.tail)

count-queued :
    (s : SerialUsb) (b : ℕ)
    → IsRing s
    → queue_full s ≡ false
    → serial_usb_queue_count
        (record s { buf = store s.head b s.buf; head = (s.head + 1) % buf_size })
      ≡ suc (serial_usb_queue_count s)
unfolding serial_usb_queue_count queue_full
count-queued s b v h = ground (arith, v.head, v.tail, h)

receive-waiting :
    (s : SerialUsb) (b : ℕ)
    → IsRing s
    → waiting (serve (Request.receive b) s).1 ≡ (serve_list (Request.receive b) (waiting s)).1
unfolding serve serve_list serial_usb_queue_byte queued_or waiting
receive-waiting s b v = with_full (queue_full s) refl
  where
    queued : SerialUsb
    queued = record s { buf = store s.head b s.buf; head = (s.head + 1) % buf_size }

    with_full :
        (full : Bool)
        → queue_full s ≡ full
        → waiting (queued_or (if full then none else some queued) s (λ t. t))
          ≡ (if ltb (length (waiting s)) (buf_size - 1) then waiting s ++ (b ∷ []) else waiting s)
    with_full true h = sym (
        passed (ltb (length (waiting s)) (buf_size - 1)) (waiting s ++ (b ∷ [])) (waiting s) (
          ap (λ (n : ℕ). ltb n (buf_size - 1))
            (entries-length (serial_usb_queue_count s) s.tail s.buf)
          ∙ full_lem s v
          ∙ ap not h))
    with_full false h =
        ap (λ (n : ℕ). entries n s.tail (store s.head b s.buf)) (count-queued s b v h)
        ∙ ap (λ (j : ℕ). entries (suc (serial_usb_queue_count s)) s.tail (store j b s.buf))
            (sym (count_lem s v))
        ∙ entries-store (serial_usb_queue_count s) s.tail b s.buf v.tail (count-lt s v)
        ∙ sym (
            picked (ltb (length (waiting s)) (buf_size - 1)) (waiting s ++ (b ∷ [])) (waiting s) (
              ap (λ (n : ℕ). ltb n (buf_size - 1))
                (entries-length (serial_usb_queue_count s) s.tail s.buf)
              ∙ full_lem s v
              ∙ ap not h))

receive-IsRing : (s : SerialUsb) (b : ℕ) → IsRing s → IsRing (serve (Request.receive b) s).1
unfolding serve serial_usb_queue_byte queued_or
receive-IsRing s b v = with_full (queue_full s)
  where
    with_full :
        (full : Bool)
        → IsRing (
            queued_or
              (if full
                then none
                else some (record s { buf = store s.head b s.buf; head = (s.head + 1) % buf_size }))
              s
              (λ t. t))
    with_full true = v
    with_full false = record { head = omega arith; tail = v.tail }

send-IsRing : (s : SerialUsb) → IsRing s → IsRing (serve Request.send s).1
unfolding serve queue_pop
send-IsRing s v = with_empty (queue_empty s)
  where
    answer : Bool → Option ℕ × SerialUsb
    answer empty =
        if empty
        then (none, s)
        else (some (s.buf s.tail), record s { tail = (s.tail + 1) % buf_size })

    with_empty : (empty : Bool) → IsRing (answer empty).1
    with_empty true = v
    with_empty false = record { head = v.head; tail = omega arith }

count-empty : (s : SerialUsb) → queue_empty s ≡ true → serial_usb_queue_count s ≡ 0
unfolding serial_usb_queue_count queue_empty
count-empty s h = ground (arith, h)

count-popped :
    (s : SerialUsb)
    → IsRing s
    → queue_empty s ≡ false
    → serial_usb_queue_count s
      ≡ suc (serial_usb_queue_count (record s { tail = (s.tail + 1) % buf_size }))
unfolding serial_usb_queue_count queue_empty
count-popped s v h = ground (arith, v.head, v.tail, h)

-- What a queue gives and holds.
observed : Option ℕ × SerialUsb → Option ℕ × List ℕ
observed (given, s) = (given, waiting s)

send-waiting :
    (s : SerialUsb)
    → IsRing s
    → observed (serve Request.send s) ≡ serve_list Request.send (waiting s)
unfolding serve serve_list queue_pop waiting observed entries
send-waiting s v = with_empty (queue_empty s) refl
  where
    popped : SerialUsb
    popped = record s { tail = (s.tail + 1) % buf_size }

    with_empty :
        (empty : Bool)
        → queue_empty s ≡ empty
        → observed (if empty then (none, s) else (some (s.buf s.tail), popped))
          ≡ serve_list Request.send (entries (serial_usb_queue_count s) s.tail s.buf)
    with_empty true h =
        ap (λ (n : ℕ). (none, entries n s.tail s.buf)) (count-empty s h)
        ∙ sym (ap (λ (n : ℕ). serve_list Request.send (entries n s.tail s.buf)) (count-empty s h))
    with_empty false h =
        sym (ap (λ (n : ℕ). serve_list Request.send (entries n s.tail s.buf)) (count-popped s v h))

-- The answers to requests, one after another.
unfoldable pub answers : List Request → SerialUsb → List (Option ℕ)
answers [] s = []
answers (r ∷ rs) s = (serve r s).0 ∷ answers rs (serve r s).1

unfoldable pub answers_list : List Request → List ℕ → List (Option ℕ)
answers_list [] q = []
answers_list (r ∷ rs) q = (serve_list r q).0 ∷ answers_list rs (serve_list r q).1

-- Over any sequence of requests the ring gives the bytes that a list of at most one byte less than
-- the buffer's size gives: in the order in which they came, each once, and without those that came
-- when the list was full.
pub answers-waiting :
    (rs : List Request) (s : SerialUsb) → IsRing s → answers rs s ≡ answers_list rs (waiting s)
unfolding answers answers_list serve serve_list observed
answers-waiting [] s v = refl
answers-waiting (Request.receive b ∷ rs) s v =
    ap (λ (a : List (Option ℕ)). none ∷ a)
      (answers-waiting rs (serve (Request.receive b) s).1 (receive-IsRing s b v)
        ∙ ap (answers_list rs) (receive-waiting s b v))
answers-waiting (Request.send ∷ rs) s v =
    ap (λ (a : List (Option ℕ)). (serve Request.send s).0 ∷ a)
      (answers-waiting rs (serve Request.send s).1 (send-IsRing s v))
    ∙ ap (λ (o : Option ℕ × List ℕ). o.0 ∷ answers_list rs o.1) (send-waiting s v)
