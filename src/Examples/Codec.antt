-- ===== src/Examples/Codec.antt =====
-- A concrete text form of memories that reads back what it wrote, in the place of JSON.
use Prim.Native.Nat.{◌/◌}
use Prim.Native.Char.{Char, code}
use Prim.Native.String.{◌++◌ as text_append}
use text.Mathlib.TextLemmas.{cons-append}
use knowbalance.Prelude.Text.{concat}
use knowbalance.Prelude.{
  ℕ, zero, suc, ◌+◌, ◌*◌, ◌-◌, String, true, Option, none, some, List, [], ◌∷◌, ◌≡◌, refl, ap, ◌∙◌,
  arith, ltb, leb, nat_eq, length, if◌then◌else◌,
}
use knowbalance.Prelude.Number.{Number, IsOrder}
use knowbalance.Orchestration.Memory.{Disk}
use knowbalance.Orchestration.Memory.Files.{IsFaithful}
use knowbalance.Orchestration.Types.{LearnerMemorySnapshot, RecentError}

-- A number system of hundredths.
abbrev pub percents : Number
percents = record {
  Num = ℕ;
  hundredths = λ i. i;
  integer = λ i. i * 100;
  lt = ltb;
  le = leb;
  add = λ a b. a + b;
  sub = λ a b. a - b;
  mul = λ a b. a * b / 100;
  div = λ a b. a * 100 / b;
  round = λ a. (a + 50) / 100 * 100;
  is_finite = λ a. true;
  is_integer = λ a. leb (a / 100 * 100) a;
}

pub percents-IsOrder : IsOrder percents
percents-IsOrder = record {
  le-not_lt = λ a b _ _. ground arith;
  lt-asymm = λ a b h. ground arith;
  lt-le_trans = λ a b c h k. ground arith;
  le-lt_trans = λ a b c h k. ground arith;
  hundredths_finite = λ i h. refl;
  hundredths_order = λ i j h k. ground arith;
}

-- A writer in front of a text, and the reader that takes it off again.
pub record Codec (A : Type 0) : Type 0 where
  pub write : A → String → String
  pub read : String → Option (A × String)
  pub read-write : (a : A) (rest : String) → read (write a rest) ≡ some (a, rest)
  pub text_append-write :
      (a : A) (s t : String) → text_append (write a s) t ≡ write a (text_append s t)

abbrev then_read : {A B : Type 0} → Option A → (A → Option B) → Option B
then_read none next = none
then_read (some a) next = next a

-- A number as that many ones and a zero.
abbrev write_nat : ℕ → String → String
write_nat zero rest = String.◌∷◌ "0" rest
write_nat (suc n) rest = String.◌∷◌ "1" (write_nat n rest)

abbrev read_nat : String → Option (ℕ × String)
read_nat String.[] = none
read_nat (String.◌∷◌ c rest) =
    let more = then_read (read_nat rest) (λ (n, left). some (suc n, left)) in
    if nat_eq (code c) b'1' then more else some (0, rest)

pub read-write_nat : (n : ℕ) (rest : String) → read_nat (write_nat n rest) ≡ some (n, rest)
read-write_nat zero rest = refl
read-write_nat (suc n) rest = rw (read-write_nat n rest) refl

pub text_append-write_nat :
    (n : ℕ) (s t : String) → text_append (write_nat n s) t ≡ write_nat n (text_append s t)
text_append-write_nat zero s t = cons-append "0" s t
text_append-write_nat (suc n) s t =
    rw (cons-append "1" (write_nat n s) t, text_append-write_nat n s t) refl

abbrev nat_codec : Codec ℕ
nat_codec = record {
  write = write_nat;
  read = read_nat;
  read-write = read-write_nat;
  text_append-write = text_append-write_nat;
}

abbrev char_codec : Codec Char
char_codec = record {
  write = λ c rest. String.◌∷◌ c rest;
  read = λ text. elim text [ String.[] ↦ none | String.◌∷◌ c rest ↦ some (c, rest) ];
  read-write = λ c rest. refl;
  text_append-write = λ c s t. cons-append c s t;
}

module _ {A B : Type 0} (first : Codec A) (second : Codec B) where
  abbrev pair_codec : Codec (A × B)
  pair_codec = record {
    write = λ (a, b) rest. first.write a (second.write b rest);
    read = λ text.
        then_read (first.read text)
          (λ (a, left). then_read (second.read left) (λ (b, rest). some ((a, b), rest)));
    read-write =
        λ (a, b) rest. rw (first.read-write a (second.write b rest), second.read-write b rest) refl;
    text_append-write = λ (a, b) s t.
        first.text_append-write a (second.write b s) t
        ∙ ap (first.write a) (second.text_append-write b s t);
  }

-- The values of a type that another one holds.
abbrev via :
    {A B : Type 0} (to : A → B) (from : B → A) → ((a : A) → from (to a) ≡ a) → Codec B → Codec A
via to from back codec = record {
  write = λ a rest. codec.write (to a) rest;
  read = λ text. then_read (codec.read text) (λ (b, rest). some (from b, rest));
  read-write = λ a rest. rw (codec.read-write (to a) rest, back a) refl;
  text_append-write = λ a s t. codec.text_append-write (to a) s t;
}

module _ {A : Type 0} (codec : Codec A) where
  abbrev write_items : List A → String → String
  write_items [] rest = rest
  write_items (x ∷ xs) rest = codec.write x (write_items xs rest)

  abbrev read_items : ℕ → String → Option (List A × String)
  read_items zero text = some ([], text)
  read_items (suc n) text =
      then_read (codec.read text)
        (λ (x, left). then_read (read_items n left) (λ (xs, rest). some (x ∷ xs, rest)))

  pub read-write_items :
      (xs : List A) (rest : String) → read_items (length xs) (write_items xs rest) ≡ some (xs, rest)
  read-write_items [] rest = refl
  read-write_items (x ∷ xs) rest =
      rw (codec.read-write x (write_items xs rest), read-write_items xs rest) refl

  pub text_append-write_items :
      (xs : List A) (s t : String)
      → text_append (write_items xs s) t ≡ write_items xs (text_append s t)
  text_append-write_items [] s t = refl
  text_append-write_items (x ∷ xs) s t =
      codec.text_append-write x (write_items xs s) t
      ∙ ap (codec.write x) (text_append-write_items xs s t)

  -- A list as its length and its members.
  abbrev list_codec : Codec (List A)
  list_codec = record {
    write = λ xs rest. write_nat (length xs) (write_items xs rest);
    read = λ text. then_read (read_nat text) (λ (n, left). read_items n left);
    read-write =
        λ xs rest. rw (read-write_nat (length xs) (write_items xs rest)) (read-write_items xs rest);
    text_append-write = λ xs s t.
        text_append-write_nat (length xs) (write_items xs s) t
        ∙ ap (write_nat (length xs)) (text_append-write_items xs s t);
  }

abbrev chars_of : String → List Char
chars_of String.[] = []
chars_of (String.◌∷◌ c s) = c ∷ chars_of s

abbrev text_of : List Char → String
text_of [] = String.[]
text_of (c ∷ cs) = String.◌∷◌ c (text_of cs)

pub text_of-chars_of : (s : String) → text_of (chars_of s) ≡ s
text_of-chars_of String.[] = refl
text_of-chars_of (String.◌∷◌ c s) = ap (λ rest. String.◌∷◌ c rest) (text_of-chars_of s)

abbrev string_codec : Codec String
string_codec = via chars_of text_of text_of-chars_of (list_codec char_codec)

abbrev error_codec : Codec RecentError
error_codec =
    via (λ (e : RecentError). (e.source_id, (e.pattern, e.count)))
      (λ (source_id, (pattern, count)). record {
        source_id = source_id;
        pattern = pattern;
        count = count;
      })
      (λ e. refl) (pair_codec string_codec (pair_codec string_codec nat_codec))

abbrev memory_codec : Codec (LearnerMemorySnapshot percents)
memory_codec =
    let texts = list_codec string_codec in
    via
      (λ (m : LearnerMemorySnapshot percents). (
        m.schema_version,
        (
          m.learner_id,
          (
            m.mastery_by_source_id,
            (
              m.mastered_source_ids,
              (m.weak_source_ids, (m.completed_sessions, (m.recent_errors, m.updated_at))),
            ),
          ),
        ),
      ))
      (λ (
        schema_version,
        (learner_id, (table, (mastered, (weak, (sessions, (errors, updated_at)))))),
      ).
        record {
          schema_version = schema_version;
          learner_id = learner_id;
          mastery_by_source_id = table;
          mastered_source_ids = mastered;
          weak_source_ids = weak;
          completed_sessions = sessions;
          recent_errors = errors;
          updated_at = updated_at;
        })
      (λ m. refl)
      (pair_codec string_codec (
        pair_codec string_codec (
          pair_codec (list_codec (pair_codec string_codec nat_codec)) (
            pair_codec texts (
              pair_codec texts
                (pair_codec texts (pair_codec (list_codec error_codec) string_codec)))))))

abbrev last_of : List String → String
last_of [] = ""
last_of (part ∷ []) = part
last_of (first ∷ part ∷ parts) = last_of (part ∷ parts)

-- A disk that writes memories in this form; a path is the name of the file.
abbrev pub disk : Disk percents
disk = record {
  stringify = λ m. memory_codec.write m "";
  parse = λ text. then_read (memory_codec.read text) (λ (m, rest). some m);
  join_path = λ parts. last_of parts;
}

written :
    (m : LearnerMemorySnapshot percents)
    → memory_codec.read (concat (disk.stringify m ∷ "\n" ∷ [])) ≡ some (m, "\n")
unfolding concat
written m = rw (memory_codec.text_append-write m "" "\n") (memory_codec.read-write m "\n")

pub disk-IsFaithful : IsFaithful disk "root"
disk-IsFaithful = record {
  parse_stringify = λ m distinct inside. ap (λ o. then_read o (λ (m, rest). some m)) (written m);
  different_paths = λ a b p q e. e;
}
