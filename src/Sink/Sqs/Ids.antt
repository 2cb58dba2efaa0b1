-- ===== src/Sink/Sqs/Ids.antt =====
-- The ids that the writer of sink/sqs.go counts.
use nomad_firehose.Base.{
  ℕ, suc, ◌+◌, ◌^◌, ◌≤◌, ◌<◌, ◌≡◌, ◌≢◌, refl, sym, ap, ◌∙◌, List, [], ◌∷◌, ◌++◌, map, length,
  length-append, String, arith, All, gather,
}
use nomad_firehose.Base.Int.{ℤ, pos, pos_part}
use nomad_firehose.Go.Value.{Bytes, succ_int64}
use nomad_firehose.Go.Strconv.{format_int, parse_int}
use nomad_firehose.Go.Strconv.RoundTrip.{parse_int-format_int}
use nomad_firehose.Sink.Sqs.{Entry, entry, entries_from}

succ_int64-pos : (n : ℕ) → suc n < 2 ^ 63 → succ_int64 (pos n) ≡ pos (suc n)
unfolding succ_int64
succ_int64-pos n h = ground arith

-- The entries for messages that are numbered from `n`.
abbrev pub numbered : String → ℕ → List Bytes → List Entry
numbered group_id n [] = []
numbered group_id n (body ∷ rest) = entry group_id (pos n) body ∷ numbered group_id (suc n) rest

-- While the counter is in range, a batch gets the next numbers, in order.
pub entries_from-numbered :
    (group_id : String) (n : ℕ) (batch : List Bytes)
    → n + length batch < 2 ^ 63
    → entries_from group_id (pos n) batch ≡ (numbered group_id n batch, pos (n + length batch))
unfolding entries_from
entries_from-numbered group_id n [] h = ap {B = List Entry × ℤ} (λ k. ([], pos k)) (omega arith)
entries_from-numbered group_id n (body ∷ rest) h =
    rw (succ_int64-pos n (omega arith), entries_from-numbered group_id (suc n) rest (omega arith))
      (ap {B = List Entry × ℤ} (λ k. (numbered group_id n (body ∷ rest), pos k)) (omega arith))

-- Different numbers have different ids.
format_int-apart :
    (m n : ℕ) → m < 2 ^ 63 → n < 2 ^ 63 → format_int (pos m) ≡ format_int (pos n) → m ≡ n
format_int-apart m n hm hn e =
    ap (λ p. pos_part p.value)
      (sym (parse_int-format_int (pos m) hm) ∙ ap parse_int e ∙ parse_int-format_int (pos n) hn)

-- The batches of a run, numbered on from one to the next.
abbrev pub number_batches : String → ℕ → List (List Bytes) → List (List Entry)
number_batches group_id n [] = []
number_batches group_id n (batch ∷ rest) =
    numbered group_id n batch ∷ number_batches group_id (n + length batch) rest

abbrev pub total : List (List Bytes) → ℕ
total [] = 0
total (batch ∷ rest) = length batch + total rest

pub length-gather : (batches : List (List Bytes)) → length (gather (λ l. l) batches) ≡ total batches
length-gather [] = refl
length-gather (batch ∷ rest) =
    omega (arith, length-append batch (gather (λ l. l) rest), length-gather rest)

numbered-append :
    (group_id : String) (n : ℕ) (xs ys : List Bytes)
    → numbered group_id n (xs ++ ys)
      ≡ numbered group_id n xs ++ numbered group_id (n + length xs) ys
numbered-append group_id n [] ys = ap (λ k. numbered group_id k ys) (omega arith)
numbered-append group_id n (x ∷ xs) ys = ap (◌∷◌ (entry group_id (pos n) x)) (
    numbered-append group_id (suc n) xs ys
    ∙ ap (λ k. numbered group_id (suc n) xs ++ numbered group_id k ys) (omega arith))

-- The batches together hold the messages in their order, numbered without a gap.
pub number_batches-flat :
    (group_id : String) (n : ℕ) (batches : List (List Bytes))
    → gather (λ l. l) (number_batches group_id n batches)
      ≡ numbered group_id n (gather (λ l. l) batches)
number_batches-flat group_id n [] = refl
number_batches-flat group_id n (batch ∷ rest) =
    ap (◌++◌ (numbered group_id n batch)) (number_batches-flat group_id (n + length batch) rest)
    ∙ sym (numbered-append group_id n batch (gather (λ l. l) rest))

-- An id is not among those of messages with higher numbers.
id-fresh :
    (group_id : String) (k n : ℕ) (xs : List Bytes)
    → k < n
    → n + length xs ≤ 2 ^ 63
    → All (λ e. e.message_deduplication_id ≢ format_int (pos k)) (numbered group_id n xs)
id-fresh group_id k n [] lt h = tt
id-fresh group_id k n (x ∷ xs) lt h = (
  λ e. absurd (omega (arith, format_int-apart n k (omega arith) (omega arith) e)),
  id-fresh group_id k (suc n) xs (omega arith) (omega arith),
)

-- All ids in a list of entries are different.
abbrev pub IdsDiffer : List Entry → Type 0
IdsDiffer [] = Unit
IdsDiffer (e ∷ es) =
    All (λ f. f.message_deduplication_id ≢ e.message_deduplication_id) es × IdsDiffer es

pub numbered-IdsDiffer :
    (group_id : String) (n : ℕ) (xs : List Bytes)
    → n + length xs ≤ 2 ^ 63
    → IdsDiffer (numbered group_id n xs)
numbered-IdsDiffer group_id n [] h = tt
numbered-IdsDiffer group_id n (x ∷ xs) h = (
  id-fresh group_id n (suc n) xs (omega arith) (omega arith),
  numbered-IdsDiffer group_id (suc n) xs (omega arith),
)

-- From the same counter, two batches of the same length get the same deduplication ids, whatever
-- their messages are.
ids_again :
    (group_id : String) (id : ℤ) (xs ys : List Bytes)
    → length xs ≡ length ys
    → map (λ e. e.message_deduplication_id) (entries_from group_id id xs).0
      ≡ map (λ e. e.message_deduplication_id) (entries_from group_id id ys).0
unfolding entries_from
ids_again group_id id [] [] h = refl
ids_again group_id id [] (y ∷ ys) h = absurd (omega arith)
ids_again group_id id (x ∷ xs) [] h = absurd (omega arith)
ids_again group_id id (x ∷ xs) (y ∷ ys) h =
    ap (◌∷◌ (format_int id)) (ids_again group_id (succ_int64 id) xs ys (omega arith))
