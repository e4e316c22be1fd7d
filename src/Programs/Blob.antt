-- ===== src/Programs/Blob.antt =====
-- cmd/t/main.go: the bytes of a `Blob`, how it prints, and the difference of two sizes of the heap.
use service_template.Base.{
  ℕ, zero, suc, ◌+◌, ◌-◌, ◌*◌, ◌/◌, ◌%◌, ◌≤◌, ◌<◌, ◌≡◌, refl, ltb, List, [], ◌∷◌, length, All,
  Outcome, returned, panicked, if◌then◌else◌, arith, ap, ◌∙◌,
}

-- `b[i] = v`, which panics out of range.
unfoldable pub set_byte : ℕ → ℕ → List ℕ → Outcome (List ℕ)
set_byte i v [] = panicked
set_byte zero v (b ∷ bs) = returned (v ∷ bs)
set_byte (suc i) v (b ∷ bs) = elim (set_byte i v bs) [
  | panicked ↦ panicked
  | returned rest ↦ returned (b ∷ rest)
]

-- `make([]byte, n)`
unfoldable pub make_bytes : ℕ → List ℕ
make_bytes zero = []
make_bytes (suc n) = 0 ∷ make_bytes n

-- The loop from `i`, with the number of rounds that are left. A byte is taken modulo 2^8 before the modulo 255.
unfoldable pub fill_from : (rounds i : ℕ) → List ℕ → Outcome (List ℕ)
fill_from zero i bs = returned bs
fill_from (suc rounds) i bs = elim (set_byte i (i % 256 % 255) bs) [
  | panicked ↦ panicked
  | returned bs' ↦ fill_from rounds (i + 1) bs'
]

unfoldable pub new_blob : ℕ → Outcome (List ℕ)
new_blob size = fill_from size 0 (make_bytes (size * 1024))

-- The number of kilobytes that `Blob.String` prints.
unfoldable pub blob_kilobytes : List ℕ → ℕ
blob_kilobytes bs = length bs / 1024

unfoldable pub heap_delta : (cur prev : ℕ) → ℕ
heap_delta cur prev = if ltb cur prev then 0 else cur - prev

-- Bytes below 255, `n` of them.
record Fits (n : ℕ) (r : Outcome (List ℕ)) : Type 0 where
  bytes : List ℕ
  result : r ≡ returned bytes
  size : length bytes ≡ n
  small : All (λ b. b < 255) bytes

set_byte-Fits :
    (i v : ℕ) (bs : List ℕ)
    → i < length bs
    → v < 255
    → All (λ b. b < 255) bs
    → Fits (length bs) (set_byte i v bs)
unfolding set_byte
set_byte-Fits i v [] lt s h = absurd (omega arith)
set_byte-Fits zero v (b ∷ bs) lt s h = record {
  bytes = v ∷ bs;
  result = refl;
  size = refl;
  small = (s, h.1);
}
set_byte-Fits (suc i) v (b ∷ bs) lt s h =
    let rest = set_byte-Fits i v bs (omega arith) s h.1 in
    record {
      bytes = b ∷ rest.bytes;
      result = rw (rest.result, set_byte);
      size = ap suc rest.size;
      small = (h.0, rest.small);
    }

fill_from-Fits :
    (rounds i n : ℕ) (bs : List ℕ)
    → length bs ≡ n
    → i + rounds ≤ n
    → All (λ b. b < 255) bs
    → Fits n (fill_from rounds i bs)
unfolding fill_from
fill_from-Fits zero i n bs e le h = record { bytes = bs; result = refl; size = e; small = h }
fill_from-Fits (suc rounds) i n bs e le h =
    let one = set_byte-Fits i (i % 256 % 255) bs (omega arith) (omega arith) h in
    let rest = fill_from-Fits rounds (i + 1) n one.bytes (one.size ∙ e) (omega arith) one.small in
    record {
      bytes = rest.bytes;
      result = rw (one.result, fill_from) rest.result;
      size = rest.size;
      small = rest.small;
    }

make_bytes-small : (n : ℕ) → (length (make_bytes n) ≡ n) × All (λ b. b < 255) (make_bytes n)
unfolding make_bytes
make_bytes-small zero = (refl, tt)
make_bytes-small (suc n) = (ap suc (make_bytes-small n).0, (omega arith, (make_bytes-small n).1))

-- The loop never writes out of range, and a blob of any size prints that size.
blob_kilobytes-new_blob :
    (size : ℕ) → (bs : List ℕ) × (new_blob size ≡ returned bs) × (blob_kilobytes bs ≡ size)
unfolding new_blob blob_kilobytes
blob_kilobytes-new_blob size =
    let made = make_bytes-small (size * 1024) in
    let f =
      fill_from-Fits size 0 (size * 1024) (make_bytes (size * 1024)) made.0 (omega arith) made.1 in
    (f.bytes, f.result, omega (arith, f.size))
