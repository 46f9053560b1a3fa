-- ===== src/Keyboard/Conversation.antt =====
-- The keyboard's answers to a sequence of commands and arguments, receive_command of
-- emulator/chips/ps2_keyboard_board.c.
use workbench.Common.{append-nil}
use workbench.Common.{
  ℕ, ◌+◌, ◌*◌, ◌≡◌, ◌∙◌, refl, ap, sym, subst, Bool, true, false, if◌then◌else◌, List, [], ◌∷◌,
  ◌++◌, length, append_assoc, arith, nonzero, picked, passed, u32, u64,
}
use workbench.Keyboard.Board.{
  KeyboardBoard, Fault, us, reply_delay_us, key_quiet_us, receive_argument, answer_command,
  receive_by, receive_command,
}
use workbench.Keyboard.Fifo.{held, HasRoom}
use workbench.Keyboard.Answers.{
  takes_argument, command_answers, argument_answers, argument_of, IsAnswered, room_less,
  argument-IsAnswered, command-IsAnswered,
}

-- What it says to a sequence of commands, each with its argument, with the time of each byte.
unfoldable pub answers : List (ℕ × ℕ) → List ℕ
answers [] = []
answers (command ∷ []) = command_answers command.0
answers (command ∷ (next ∷ bytes)) =
    let with_argument = answers bytes in
    let without = answers (next ∷ bytes) in
    if takes_argument command.0
    then command_answers command.0 ++ (argument_answers command.0 next.0 ++ with_argument)
    else command_answers command.0 ++ without

unfoldable pub receive_all : List (ℕ × ℕ) → KeyboardBoard → KeyboardBoard
receive_all [] s = s
receive_all (byte ∷ bytes) s = receive_all bytes (receive_command byte.0 byte.1 s)

-- The state that receive_by starts from.
abbrev counted : ℕ → KeyboardBoard → KeyboardBoard
counted now s = record s {
  commands = u32 (s.commands + 1);
  next_send = u64 (now + us s reply_delay_us);
  keys_after = u64 (now + us s key_quiet_us);
}

received :
    (n byte now : ℕ) (said : List ℕ) (next : ℕ) (s : KeyboardBoard)
    → s.fault ≡ Fault.no_fault
    → IsAnswered n said next (counted now s) (
        if nonzero s.awaiting_argument_for
        then receive_argument byte (counted now s)
        else answer_command byte (counted now s))
    → IsAnswered n said next s (receive_command byte now s)
unfolding receive_command receive_by
received n byte now said next s h a =
    subst (λ (f : Fault). IsAnswered n said next s (receive_by f byte (counted now s))) (sym h)
      (record { said = a.said; room = a.room; fault = a.fault; awaits = a.awaits })

command_step :
    (n byte now : ℕ) (s : KeyboardBoard)
    → s.fault ≡ Fault.no_fault
    → s.awaiting_argument_for ≡ 0
    → HasRoom (n + 3) s.replies
    → IsAnswered n (command_answers byte) (argument_of byte) s (receive_command byte now s)
command_step n byte now s f h r =
    received n byte now (command_answers byte) (argument_of byte) s f (
      subst
        (λ (t : KeyboardBoard).
          IsAnswered n (command_answers byte) (argument_of byte) (counted now s) t)
        (sym (passed (nonzero s.awaiting_argument_for) _ _ (ground (arith, h))))
        (command-IsAnswered n byte (counted now s) r h))

argument_step :
    (n command byte now : ℕ) (s : KeyboardBoard)
    → s.fault ≡ Fault.no_fault
    → s.awaiting_argument_for ≡ command
    → nonzero command ≡ true
    → HasRoom (n + 2) s.replies
    → IsAnswered n (argument_answers command byte) 0 s (receive_command byte now s)
argument_step n command byte now s f h k r =
    received n byte now (argument_answers command byte) 0 s f (
      subst
        (λ (t : KeyboardBoard). IsAnswered n (argument_answers command byte) 0 (counted now s) t)
        (sym (picked (nonzero s.awaiting_argument_for) _ _ (ap nonzero h ∙ k)))
        (argument-IsAnswered n command byte (counted now s) r h))

takes-nonzero : (command : ℕ) → takes_argument command ≡ true → nonzero command ≡ true
unfolding takes_argument
takes-nonzero command h = ground (arith, h)

-- The theorem below at one list.
AreAnswered : List (ℕ × ℕ) → Type 0
AreAnswered bytes =
    (s : KeyboardBoard)
    → s.fault ≡ Fault.no_fault
    → s.awaiting_argument_for ≡ 0
    → HasRoom (3 * length bytes) s.replies
    → held (receive_all bytes s).replies ≡ held s.replies ++ answers bytes

pair-AreAnswered :
    (command next : ℕ × ℕ) (bytes : List (ℕ × ℕ))
    → AreAnswered bytes
    → AreAnswered (next ∷ bytes)
    → AreAnswered (command ∷ (next ∷ bytes))
unfolding AreAnswered answers receive_all argument_of
pair-AreAnswered command next bytes behind without s f h r =
    with_argument (takes_argument command.0) refl
  where
    n : ℕ
    n = 3 * length (next ∷ bytes)

    t : KeyboardBoard
    t = receive_command command.0 command.1 s

    first : IsAnswered n (command_answers command.0) (argument_of command.0) s t
    first = command_step n command.0 command.1 s f h (room_less (n + 3) _ s.replies (omega arith) r)

    with_argument :
        (argument : Bool)
        → takes_argument command.0 ≡ argument
        → held (receive_all (next ∷ bytes) t).replies
          ≡ held s.replies
            ++ (if argument
                then command_answers command.0
                  ++ (argument_answers command.0 next.0 ++ answers bytes)
                else command_answers command.0 ++ answers (next ∷ bytes))
    with_argument true k =
        let second =
          argument_step (3 * length bytes) command.0 next.0 next.1 t (first.fault ∙ f)
            (first.awaits ∙ picked (takes_argument command.0) command.0 0 k)
            (takes-nonzero command.0 k)
            (room_less (3 * length bytes + 2) n t.replies (omega arith) first.room) in
        behind (receive_command next.0 next.1 t) (second.fault ∙ (first.fault ∙ f)) second.awaits
          second.room
        ∙ ap (λ (q : List ℕ). q ++ answers bytes)
            (second.said ∙ ap (λ (q : List ℕ). q ++ argument_answers command.0 next.0) first.said)
        ∙ append_assoc _ (argument_answers command.0 next.0) (answers bytes)
        ∙ append_assoc (held s.replies) (command_answers command.0) _
    with_argument false k =
        without t (first.fault ∙ f) (first.awaits ∙ passed (takes_argument command.0) command.0 0 k)
          first.room
        ∙ ap (λ (q : List ℕ). q ++ answers (next ∷ bytes)) first.said
        ∙ append_assoc (held s.replies) (command_answers command.0) (answers (next ∷ bytes))

-- A working keyboard that awaits no argument and has room for three bytes per byte that it
-- receives queues its answers to the bytes in their order: to each command what the table says,
-- and to the byte behind a command with an argument what it says to that argument.
pub replies-answers :
    (bytes : List (ℕ × ℕ)) (s : KeyboardBoard)
    → s.fault ≡ Fault.no_fault
    → s.awaiting_argument_for ≡ 0
    → HasRoom (3 * length bytes) s.replies
    → held (receive_all bytes s).replies ≡ held s.replies ++ answers bytes
unfolding answers receive_all AreAnswered
replies-answers [] s f h r = sym (append-nil (held s.replies))
replies-answers (command ∷ []) s f h r = (command_step 0 command.0 command.1 s f h r).said
replies-answers (command ∷ (next ∷ bytes)) s f h r =
    pair-AreAnswered command next bytes (replies-answers bytes) (replies-answers (next ∷ bytes)) s f
      h r
