-- ===== src/Interp/Code/Runs.antt =====
-- What it means that instructions compute a value.
use libjit.Base.{ℕ, ◌≤◌, ◌<◌, ◌≡◌, refl, sym, ap, ◌∙◌, arith, List, [], ◌∷◌, ◌++◌}
use mathlib.Core.Path.{subst}
use mathlib.Core.List.{append-nil, append_assoc}
use libjit.Base.Int.{ℤ, pos}
use libjit.Item.{Kind, cast}
use libjit.Value.{Value, constant, temporary, type_of}
use libjit.Insn.{Insn, Builder}
use libjit.Interp.Code.{Machine, Result, ran, thrown, onward, run, run_insn}
use libjit.Interp.Answers.{Answer, answer, raises, and_then}
use libjit.Interp.Code.Places.{content, IsProper}

-- The frame is the same below the offset.
abbrev pub Keeps : ℕ → (ℕ → ℕ) → (ℕ → ℕ) → Type 0
Keeps size frame frame' = (n : ℕ) → n < size → frame' n ≡ frame n

-- A value's place lies below the offset.
abbrev pub IsPlaced : ℕ → Value → Type 0
IsPlaced size (constant kind address) = Unit
IsPlaced size (temporary kind offset) = offset < size

-- A run ends with the value in its place, or with the exception.
abbrev pub Ends : ℕ → (ℕ → ℕ) → Result → Value → Answer → Type 0
Ends size frame result value (raises e) = result ≡ thrown e
Ends size frame result value (answer y) =
    (machine : Machine) × (result ≡ ran machine)
    × (content machine.frame value ≡ y)
    × Keeps size frame machine.frame

abbrev pub Runs : ℕ → Machine → List Insn → Value → Answer → Type 0
Runs size machine insns value a = Ends size machine.frame (run machine insns) value a

-- Building instructions that compute a value; `meaning` is the value by what the frame holds.
pub record Builds (builder : Builder) (built : Builder × Value) (type : Kind)
    (meaning : (ℕ → ℕ) → Answer) : Type 0 where
  pub added : List Insn
  pub appended : built.0.insns ≡ builder.insns ++ added
  pub grows : builder.frame_size ≤ built.0.frame_size
  pub placed : IsPlaced built.0.frame_size built.1
  pub proper : IsProper built.1
  pub typed : type_of built.1 ≡ type
  pub runs :
      (machine : Machine) → Runs builder.frame_size machine added built.1 (meaning machine.frame)

onward_assoc :
    (r : Result) (f f' g : Machine → Result)
    → ((machine : Machine) → f machine ≡ onward (f' machine) g)
    → onward r f ≡ onward (onward r f') g
onward_assoc (thrown e) f f' g same = refl
onward_assoc (ran machine) f f' g same = same machine

run-append :
    (xs ys : List Insn) (machine : Machine)
    → run machine (xs ++ ys) ≡ onward (run machine xs) (λ machine'. run machine' ys)
unfolding run
run-append [] ys machine = refl
run-append (x ∷ xs) ys machine =
    onward_assoc (run_insn machine x) (λ machine'. run machine' (xs ++ ys))
      (λ machine'. run machine' xs) (λ machine'. run machine' ys) (run-append xs ys)

pub content-Keeps :
    (size : ℕ) (frame frame' : ℕ → ℕ) (value : Value)
    → Keeps size frame frame'
    → IsPlaced size value
    → content frame' value ≡ content frame value
unfolding content
content-Keeps size frame frame' (constant kind address) keeps placed = refl
content-Keeps size frame frame' (temporary kind offset) keeps placed =
    ap (λ n. cast kind (pos n)) (keeps offset placed)

pub IsPlaced-le : (m n : ℕ) (value : Value) → m ≤ n → IsPlaced m value → IsPlaced n value
IsPlaced-le m n (constant kind address) le placed = tt
IsPlaced-le m n (temporary kind offset) le placed = omega arith

-- Nothing is built, and the value is there.
pub Builds-nothing :
    (builder : Builder) (value : Value)
    → IsPlaced builder.frame_size value
    → IsProper value
    → Builds builder (builder, value) (type_of value) (λ frame. answer (content frame value))
unfolding run
Builds-nothing builder value placed proper = record {
  added = [];
  appended = sym (append-nil builder.insns);
  grows = omega arith;
  placed = placed;
  proper = proper;
  typed = refl;
  runs = λ machine. (machine, refl, refl, λ n lt. refl);
}

Runs-from :
    (size size' : ℕ) (machine machine' : Machine) (xs ys : List Insn) (value : Value) (a : Answer)
    → size ≤ size'
    → run machine xs ≡ run machine' ys
    → Keeps size machine.frame machine'.frame
    → Runs size' machine' ys value a
    → Runs size machine xs value a
Runs-from size size' machine machine' xs ys value (raises e) le whole keeps rest = whole ∙ rest
Runs-from size size' machine machine' xs ys value (answer y) le whole keeps
      (last, ran_last, holds_y, keeps') =
    (last, whole ∙ ran_last, holds_y, λ n lt. keeps' n (omega arith) ∙ keeps n lt)

Runs-append :
    (size size' : ℕ) (machine : Machine) (xs ys : List Insn) (value value' : Value) (a : Answer)
    (f : ℤ → Answer)
    → size ≤ size'
    → Runs size machine xs value a
    → ((machine' : Machine)
        → Keeps size machine.frame machine'.frame
        → Runs size' machine' ys value' (f (content machine'.frame value)))
    → Runs size machine (xs ++ ys) value' (and_then a f)
Runs-append size size' machine xs ys value value' (raises e) f le first second =
    run-append xs ys machine ∙ rw first refl
Runs-append size size' machine xs ys value value' (answer y) f le
      (machine', ran_first, holds_y, keeps) second =
    let whole : run machine (xs ++ ys) ≡ run machine' ys =
      run-append xs ys machine ∙ rw ran_first refl in
    Runs-from size size' machine machine' (xs ++ ys) ys value' (f y) le whole keeps
      (subst (λ z. Runs size' machine' ys value' (f z)) holds_y (second machine' keeps))

-- To build more, with the value that was built first.
pub Builds-more :
    (builder : Builder) (first second : Builder × Value) (type type' : Kind)
    (meaning : (ℕ → ℕ) → Answer) (f : (ℕ → ℕ) → ℤ → Answer)
    → Builds builder first type meaning
    → Builds first.0 second type' (λ frame. f frame (content frame first.1))
    → ((frame frame' : ℕ → ℕ) (y : ℤ)
        → Keeps builder.frame_size frame frame'
        → f frame' y ≡ f frame y)
    → Builds builder second type' (λ frame. and_then (meaning frame) (f frame))
Builds-more builder first second type type' meaning f one two stable = record {
  added = one.added ++ two.added;
  appended =
      two.appended
      ∙ ap (λ xs. xs ++ two.added) one.appended
      ∙ append_assoc builder.insns one.added two.added;
  grows = omega (arith, one.grows, two.grows);
  placed = two.placed;
  proper = two.proper;
  typed = two.typed;
  runs = λ machine.
      Runs-append builder.frame_size first.0.frame_size machine one.added two.added first.1 second.1
        (meaning machine.frame) (f machine.frame) one.grows (one.runs machine)
        (λ machine' keeps.
          subst (λ a. Runs first.0.frame_size machine' two.added second.1 a)
            (stable machine.frame machine'.frame (content machine'.frame first.1) keeps)
            (two.runs machine'));
}

-- Only the instructions and the size of the frame matter.
pub Builds-same :
    (builder builder' : Builder) (built : Builder × Value) (type : Kind)
    (meaning meaning' : (ℕ → ℕ) → Answer)
    → builder.insns ≡ builder'.insns
    → builder.frame_size ≡ builder'.frame_size
    → ((frame : ℕ → ℕ) → meaning frame ≡ meaning' frame)
    → Builds builder built type meaning
    → Builds builder' built type meaning'
Builds-same builder builder' built type meaning meaning' insns size same b = record {
  added = b.added;
  appended = b.appended ∙ ap (λ xs. xs ++ b.added) insns;
  grows = omega (arith, b.grows, size);
  placed = b.placed;
  proper = b.proper;
  typed = b.typed;
  runs = λ machine.
      subst (λ n. Runs n machine b.added built.1 (meaning' machine.frame)) size
        (subst (λ a. Runs builder.frame_size machine b.added built.1 a) (same machine.frame)
          (b.runs machine));
}
