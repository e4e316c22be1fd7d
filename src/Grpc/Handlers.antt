-- ===== src/Grpc/Handlers.antt =====
-- internal/grpc_handler/say_hello.go and say_hello2.go. What database/sql answers is a parameter; a `Row` holds
-- its connection until `Scan`.
use service_template.Base.{
  ℕ, ◌+◌, ◌%◌, ◌^◌, ◌<◌, lt→ltb, ◌≡◌, refl, ◌&&◌, ◌||◌, List, [], ◌∷◌, ◌++◌, length, Option, none,
  some, arith, leb, ltb, if◌then◌else◌, Runes, runes, String, Result, ok, err,
}
use native.Mathlib.Nat.{mod-eq_of_lt}

-- `string(rune(a))` of an `int` that is not negative
unfoldable pub string_of_rune : ℕ → Runes
string_of_rune a =
    let r = a % 2 ^ 32 in
    if ltb r 0xd800 || (leb 0xe000 r && leb r 0x10ffff) then r ∷ [] else 0xfffd ∷ []

-- The answers to the two statements of a call: the errors of `QueryRow`, and what
-- `Scan` gives.
pub record Answers : Type 0 where
  pub insert_error : Option String
  pub query_error : Option String
  pub count : Result String ℕ

-- The variable `a`, which stays 0 where `Scan` has an error.
abbrev pub counted : Answers → ℕ
counted answers = elim answers.count [ ok n ↦ n | err e ↦ 0 ]

-- What a call returns, what it prints, and how many connections it does not give back.
pub record Said : Type 0 where
  pub message : Runes
  pub printed : (Option String) × (Option String) × ℕ
  pub held : ℕ

unfoldable pub say_hello : Answers → Said
say_hello answers =
    let a = counted answers in
    record {
      message = runes "Hello 1 " ++ string_of_rune a;
      printed = (answers.insert_error, answers.query_error, a);
      held = elim answers.insert_error [ none ↦ 1 | some e ↦ 0 ];
    }

unfoldable pub say_hello2 : (name : Runes) → Runes
say_hello2 name = runes "Hello 2" ++ name

-- The connections that the calls have not given back.
unfoldable pub held_by : List Answers → ℕ
unfolding say_hello
held_by [] = 0
held_by (a ∷ calls) = (say_hello a).held + held_by calls

abbrev pub inserted : List Answers → List Answers
inserted [] = []
inserted (a ∷ calls) =
    let rest = inserted calls in elim a.insert_error [ none ↦ a ∷ rest | some e ↦ rest ]

-- Each call whose insert was accepted keeps a connection for good, and the others none, whatever else
-- is answered.
pub held_by-inserted : (calls : List Answers) → held_by calls ≡ length (inserted calls)
unfolding held_by say_hello
held_by-inserted [] = refl
held_by-inserted (a ∷ calls) = ground (arith, held_by-inserted calls)

-- The answer ends in the one rune whose number is the count, not in its digits.
message-say_hello :
    (a : Answers) → counted a < 0xd800 → (say_hello a).message ≡ runes "Hello 1 " ++ counted a ∷ []
unfolding say_hello string_of_rune
message-say_hello a h = rw (mod-eq_of_lt (below a h), lt→ltb (counted a) 0xd800 h)
  where
    below : (a : Answers) → counted a < 0xd800 → counted a < 2 ^ 32
    below a h = omega arith
