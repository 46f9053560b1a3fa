-- ===== src/Keyboard/Answers.antt =====
-- What the keyboard answers to the host: receive_command of
-- emulator/chips/ps2_keyboard_board.c against the table of ps2_keyboard_board.h.
use workbench.Common.{
  ℕ, suc, ◌+◌, ◌==◌, ◌≡◌, ◌≤◌, ◌∙◌, refl, ap, sym, subst, Bool, true, false, ◌&&◌, ◌||◌,
  if◌then◌else◌, List, [], ◌∷◌, ◌++◌, append_assoc, arith, picked, passed,
}
use workbench.Keyboard.Queue.{ByteQueue}
use workbench.Keyboard.Board.{KeyboardBoard, scan_code_set, reply, receive_argument, answer_command}
use workbench.Keyboard.Fifo.{held, HasRoom, put-held, put-HasRoom}

-- The commands with an argument.
unfoldable pub takes_argument : ℕ → Bool
takes_argument command = (command == 0xed) || ((command == 0xf0) || (command == 0xf3))

-- What the keyboard says to a command.
unfoldable pub command_answers : ℕ → List ℕ
command_answers command =
    if command == 0xee
    then 0xee ∷ []
    else if command == 0xff
    then 0xfa ∷ (0xaa ∷ [])
    else if command == 0xf2
    then 0xfa ∷ (0xab ∷ (0x83 ∷ []))
    else 0xfa ∷ []

-- What the keyboard says to the argument of a command.
unfoldable pub argument_answers : ℕ → ℕ → List ℕ
argument_answers command byte =
    if (command == 0xf0) && (byte == 0x00) then 0xfa ∷ (scan_code_set ∷ []) else 0xfa ∷ []

-- From `s` to `t` the keyboard has queued `bytes`; it awaits the argument of `awaited`, or nothing
-- if that is 0, and has room for `n` more bytes.
pub record IsAnswered (n : ℕ) (bytes : List ℕ) (awaited : ℕ) (s t : KeyboardBoard) : Type 0 where
  pub said : held t.replies ≡ held s.replies ++ bytes
  pub room : HasRoom n t.replies
  pub fault : t.fault ≡ s.fault
  pub awaits : t.awaiting_argument_for ≡ awaited

pub room_less : (n m : ℕ) (q : ByteQueue) → n ≤ m → HasRoom m q → HasRoom n q
room_less n m q h r = record { head = r.head; count = omega (arith, h, r.count) }

reply-IsAnswered :
    (n b : ℕ) (s : KeyboardBoard)
    → HasRoom (suc n) s.replies
    → IsAnswered n (b ∷ []) s.awaiting_argument_for s (reply b s)
unfolding reply
reply-IsAnswered n b s r = record {
  said = put-held b s.replies (room_less 1 (suc n) s.replies (omega arith) r);
  room = put-HasRoom n b s.replies r;
  fault = refl;
  awaits = refl;
}

pub then_answered :
    (n m : ℕ) (xs ys : List ℕ) (v w : ℕ) (s t u : KeyboardBoard)
    → IsAnswered n xs v s t
    → IsAnswered m ys w t u
    → IsAnswered m (xs ++ ys) w s u
then_answered n m xs ys v w s t u a b = record {
  said = b.said ∙ ap (λ (h : List ℕ). h ++ ys) a.said ∙ append_assoc (held s.replies) xs ys;
  room = b.room;
  fault = b.fault ∙ a.fault;
  awaits = b.awaits;
}

replies-IsAnswered :
    (n b c : ℕ) (s : KeyboardBoard)
    → HasRoom (suc (suc n)) s.replies
    → IsAnswered n (b ∷ (c ∷ [])) s.awaiting_argument_for s (reply c (reply b s))
unfolding reply
replies-IsAnswered n b c s r =
    let first = reply-IsAnswered (suc n) b s r in
    then_answered (suc n) n (b ∷ []) (c ∷ []) s.awaiting_argument_for s.awaiting_argument_for s
      (reply b s) (reply c (reply b s)) first (reply-IsAnswered n c (reply b s) first.room)

pub argument-IsAnswered :
    (n command byte : ℕ) (s : KeyboardBoard)
    → HasRoom (n + 2) s.replies
    → s.awaiting_argument_for ≡ command
    → IsAnswered n (argument_answers command byte) 0 s (receive_argument byte s)
unfolding receive_argument argument_answers reply
argument-IsAnswered n command byte s r h =
    subst
      (λ (c : ℕ).
        IsAnswered n
          (if (c == 0xf0) && (byte == 0x00) then 0xfa ∷ (scan_code_set ∷ []) else 0xfa ∷ []) 0 s
          (receive_argument byte s))
      h (by_codes ((s.awaiting_argument_for == 0xf0) && (byte == 0x00)))
  where
    r1 : HasRoom (suc (suc n)) s.replies
    r1 = room_less (suc (suc n)) (n + 2) s.replies (omega arith) r

    by_codes :
        (test : Bool)
        → IsAnswered n
            (if test then 0xfa ∷ (scan_code_set ∷ []) else 0xfa ∷ [])
            0
            s
            (record (if test then reply scan_code_set (reply 0xfa s) else reply 0xfa s) {
              awaiting_argument_for = 0;
            })
    by_codes true =
        let a = replies-IsAnswered n 0xfa scan_code_set s r1 in
        record { said = a.said; room = a.room; fault = a.fault; awaits = refl }
    by_codes false =
        let a =
          reply-IsAnswered n 0xfa s (room_less (suc n) (suc (suc n)) s.replies (omega arith) r1) in
        record { said = a.said; room = a.room; fault = a.fault; awaits = refl }

-- The command whose argument comes next.
unfoldable pub argument_of : ℕ → ℕ
argument_of command = if takes_argument command then command else 0

argument_of-plain : (command : ℕ) → takes_argument command ≡ false → 0 ≡ argument_of command
unfolding argument_of
argument_of-plain command h = sym (passed (takes_argument command) command 0 h)

pub command-IsAnswered :
    (n command : ℕ) (s : KeyboardBoard)
    → HasRoom (n + 3) s.replies
    → s.awaiting_argument_for ≡ 0
    → IsAnswered n (command_answers command) (argument_of command) s (answer_command command s)
unfolding command_answers answer_command argument_of takes_argument reply
command-IsAnswered n command s r h =
    by_codes (command == 0xee) (command == 0xff) (command == 0xf2) (takes_argument command) refl
      refl refl refl
  where
    r1 : HasRoom (suc (suc (suc n))) s.replies
    r1 = room_less (suc (suc (suc n))) (n + 3) s.replies (omega arith) r

    r2 : HasRoom (suc (suc n)) s.replies
    r2 = room_less (suc (suc n)) (suc (suc (suc n))) s.replies (omega arith) r1

    r3 : HasRoom (suc n) s.replies
    r3 = room_less (suc n) (suc (suc n)) s.replies (omega arith) r2

    none_awaited :
        (said : List ℕ) (t : KeyboardBoard)
        → takes_argument command ≡ false
        → IsAnswered n said s.awaiting_argument_for s t
        → IsAnswered n said (argument_of command) s t
    none_awaited said t k a =
        subst (λ (w : ℕ). IsAnswered n said w s t) (h ∙ argument_of-plain command k) a

    by_codes :
        (echo reset identify argument : Bool)
        → (command == 0xee) ≡ echo
        → (command == 0xff) ≡ reset
        → (command == 0xf2) ≡ identify
        → takes_argument command ≡ argument
        → IsAnswered n
            (if echo
              then 0xee ∷ []
              else if reset
              then 0xfa ∷ (0xaa ∷ [])
              else if identify
              then 0xfa ∷ (0xab ∷ (0x83 ∷ []))
              else 0xfa ∷ [])
            (argument_of command)
            s
            (if echo
              then reply 0xee s
              else if reset
              then reply 0xaa (reply 0xfa s)
              else if identify
              then reply 0x83 (reply 0xab (reply 0xfa s))
              else if argument
              then reply 0xfa (record s { awaiting_argument_for = command })
              else reply 0xfa s)
    by_codes true reset identify argument he hr hi ha =
        none_awaited _ _ (ground (arith, he)) (reply-IsAnswered n 0xee s r3)
    by_codes false true identify argument he hr hi ha =
        none_awaited _ _ (ground (arith, hr)) (replies-IsAnswered n 0xfa 0xaa s r2)
    by_codes false false true argument he hr hi ha =
        let first = reply-IsAnswered (suc (suc n)) 0xfa s r1 in
        none_awaited _ _ (ground (arith, hi)) (
          then_answered (suc (suc n)) n (0xfa ∷ []) (0xab ∷ (0x83 ∷ [])) s.awaiting_argument_for
            s.awaiting_argument_for s (reply 0xfa s) (reply 0x83 (reply 0xab (reply 0xfa s))) first
            (replies-IsAnswered n 0xab 0x83 (reply 0xfa s) first.room))
    by_codes false false false true he hr hi ha =
        let a = reply-IsAnswered n 0xfa s r3 in
        record {
          said = a.said;
          room = a.room;
          fault = a.fault;
          awaits = sym (picked (takes_argument command) command 0 ha);
        }
    by_codes false false false false he hr hi ha =
        none_awaited _ _ ha (reply-IsAnswered n 0xfa s r3)
