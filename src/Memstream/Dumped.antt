-- ===== src/Memstream/Dumped.antt =====
-- What the dump shows of the stream.
use ohmylib.Prelude.{
  ℕ, zero, suc, ◌+◌, ◌-◌, ◌*◌, ◌%◌, ◌<◌, ◌≡◌, refl, ap, ap₂, ◌∙◌, arith, true, some, List, [], ◌∷◌,
  ◌++◌, Memory, length, length-replicate, replicate, read_bytes,
}
use ohmylib.Prelude.Int.{pos}
use ohmylib.Printlog.{Event}
use ohmylib.Printlog.Pieces.{bytes_of, bytes_at}
use ohmylib.Printlog.Shown.{hexdump_lem}
use ohmylib.Memstream.{word_count, text, write_loop, byte_at, block, title, main}

replicate-append : (m n v : ℕ) → replicate m v ++ replicate n v ≡ replicate (m + n) v
replicate-append zero n v = ap (λ k. replicate k v) {x = n} (omega arith)
replicate-append (suc m) n v =
    ap (λ vs. v ∷ vs) (replicate-append m n v)
    ∙ ap (λ k. replicate k v) {x = suc (m + n)} (omega arith)

-- Each call of fwrite writes the whole text.
write_loop-replicate :
    (wc n : ℕ)
    → write_loop wc (replicate 8 0x37) (replicate wc 8) (replicate n 0x37)
      ≡ (true, replicate (n + wc * 8) 0x37)
unfolding write_loop
write_loop-replicate zero n = ap (λ k. (true, replicate k 0x37)) {x = n} (omega arith)
write_loop-replicate (suc wc) n =
    ap (write_loop wc (replicate 8 0x37) (replicate wc 8)) (replicate-append n 8 0x37)
    ∙ write_loop-replicate wc (n + 8)
    ∙ ap (λ k. (true, replicate k 0x37)) {x = n + 8 + wc * 8} (omega arith)

byte_at-replicate : (n v i : ℕ) → i < n → byte_at (replicate n v) i ≡ v
byte_at-replicate zero v i lt = absurd (omega arith)
byte_at-replicate (suc n) v zero lt = refl
byte_at-replicate (suc n) v (suc i) lt = byte_at-replicate n v i (omega arith)

read_bytes_same :
    (m : Memory) (p n v : ℕ) → ((i : ℕ) → i < n → m (p + i) ≡ v) → read_bytes m p n ≡ replicate n v
read_bytes_same m p zero v h = refl
read_bytes_same m p (suc n) v h =
    ap₂ ◌∷◌ (ap m (omega arith) ∙ h 0 (omega arith))
      (read_bytes_same m (p + 1) n v (λ i lt. ap m (omega arith) ∙ h (suc i) (omega arith)))

-- The block of a stream of one byte again and again.
stream_bytes :
    (ptr n : ℕ)
    → let stream : List ℕ = replicate n 0x37 in
      bytes_at (block ptr stream) ptr (length stream) ≡ replicate n 0x37
stream_bytes ptr n =
    let stream : List ℕ = replicate n 0x37 in
    let long : length stream ≡ n = length-replicate {A = ℕ} n 0x37 in
    let each_byte : (i : ℕ) → i < length stream → block ptr stream (ptr + i) % 256 ≡ 0x37 = λ i lt.
      let offset : ptr + i - ptr ≡ i = omega arith in
      let within : i < n = omega (arith, lt, long) in
      ap (λ j. byte_at stream j % 256) offset
      ∙ ap (λ (b : ℕ). b % 256) (byte_at-replicate n 0x37 i within) in
    read_bytes_same (λ a. block ptr stream a % 256) ptr (length stream) 0x37 each_byte
    ∙ ap (λ k. replicate k 0x37) long

-- Where the byte behind the eight is 0 and the calls of fwrite succeed, main returns 0, it dumps
-- eight bytes 0x37 for each word, and it frees the block of the stream.
pub memstream_main_lem :
    (args : List (List ℕ)) (behind : List ℕ) (ptr : ℕ)
    → (es : List Event) × (main args (0 ∷ behind) true ptr (replicate (word_count args) 8)
        ≡ some (pos 0, es, ptr ∷ []))
      × (bytes_of es ≡ replicate (word_count args * 8) 0x37)
unfolding main text
memstream_main_lem args behind ptr =
    let wc = word_count args in
    let stream : List ℕ = replicate (wc * 8) 0x37 in
    let (es, fs, dumped, _, (shown, _), _) =
      hexdump_lem 0 (block ptr stream) ptr (length stream) (some title) in
    let same : 0 + wc * 8 ≡ wc * 8 = omega arith in
    let written = write_loop-replicate wc 0 ∙ ap (λ k. (true, replicate k 0x37)) same in
    (es, rw written (rw dumped refl), shown ∙ stream_bytes ptr (wc * 8))
