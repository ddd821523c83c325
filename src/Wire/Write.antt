-- ===== src/Wire/Write.antt =====
-- Writing at the index pointer: a step that writes `bs` puts it behind what is there.
use smudge.Prelude.{
  ℕ, suc, ◌+◌, ◌≡◌, refl, ap, subst, List, [], ◌∷◌, ◌++◌, length, replicate, length-append,
  append_assoc, append-nil, arith,
}
use mathlib.Core.Path.{fun_ext}
use smudge.Prelude.Outcome.{Outcome, ok, ◌>>=◌}
use native.Mathlib.Nat.{zero-add, suc-add, add_assoc}
use smudge.Bytes.{index, store, encode_byte}
use smudge.Bytes.Little.{
  little, length-little, store-append, encode_uint16-little, encode_uint32-little,
}
use smudge.Net.{Ip}
use smudge.Wire.{Cursor, copy_ip, copy_bytes, put_byte, put_uint16, put_uint32, put_ip}

abbrev pub zeros : ℕ → List ℕ
zeros n = replicate n 0

-- The step fills the zeros at its pointer with `bs`, and leaves the pointer behind them.
abbrev pub Writes : (Cursor → Outcome Cursor) → List ℕ → Type 0
Writes step bs =
    (pre : List ℕ) (n : ℕ)
    → step (length pre, pre ++ zeros (length bs + n))
      ≡ ok (length (pre ++ bs), (pre ++ bs) ++ zeros n)

pub Writes-then :
    (s t : Cursor → Outcome Cursor) (xs ys : List ℕ)
    → Writes s xs
    → Writes t ys
    → Writes (λ c. s c >>= t) (xs ++ ys)
Writes-then s t xs ys hs ht pre n =
    rw (length-append xs ys, add_assoc, hs pre (length ys + n), ht (pre ++ xs) n, append_assoc)

pub Writes-nil : Writes (λ c. ok c) []
Writes-nil pre n = rw (append-nil pre, zero-add)

one_zero : (n : ℕ) → zeros (1 + n) ≡ 0 ∷ zeros n
one_zero n = let e : 1 + n ≡ suc n = omega arith in ap zeros e

two_zeros : (n : ℕ) → zeros (2 + n) ≡ 0 ∷ 0 ∷ zeros n
two_zeros n = let e : 2 + n ≡ suc (suc n) = omega arith in ap zeros e

pub four_zeros : (n : ℕ) → zeros (4 + n) ≡ 0 ∷ 0 ∷ 0 ∷ 0 ∷ zeros n
four_zeros n = let e : 4 + n ≡ suc (suc (suc (suc n))) = omega arith in ap zeros e

-- In the middle of a list of known length.
index_middle : (pre suf : List ℕ) (x : ℕ) → index (pre ++ (x ∷ suf)) (length pre) ≡ ok x
unfolding index
index_middle [] suf x = refl
index_middle (y ∷ pre) suf x = index_middle pre suf x

store_middle :
    (pre suf : List ℕ) (x v : ℕ) → store (pre ++ (x ∷ suf)) (length pre) v ≡ ok (pre ++ (v ∷ suf))
unfolding store
store_middle [] suf x v = refl
store_middle (y ∷ pre) suf x v = rw (store_middle pre suf x v)

length-snoc : (xs : List ℕ) (x : ℕ) → length (xs ++ (x ∷ [])) ≡ length xs + 1
length-snoc xs x = length-append xs (x ∷ [])

-- The loop over an IP copies its bytes as the loop over a payload does.
copy_ip-copy_bytes :
    (done todo bytes : List ℕ) (p : ℕ)
    → copy_ip (length todo) (length done) (done ++ todo) bytes p
      ≡ copy_bytes (length done) todo bytes p
unfolding copy_ip copy_bytes
copy_ip-copy_bytes done [] bytes p = refl
copy_ip-copy_bytes done (b ∷ todo) bytes p =
    let next = λ (bytes' : List ℕ).
      rw (length-snoc done b, append_assoc) at
        (copy_ip-copy_bytes (done ++ (b ∷ [])) todo bytes' p) in
    rw (index_middle done todo b) (ap (λ k. store bytes (p + length done) b >>= k) (fun_ext next))

copy_bytes-fills :
    (done todo pre : List ℕ) (n : ℕ)
    → copy_bytes (length done) todo (pre ++ (done ++ zeros (length todo + n))) (length pre)
      ≡ ok (pre ++ (done ++ (todo ++ zeros n)))
unfolding copy_bytes
copy_bytes-fills done [] pre n = rw zero-add
copy_bytes-fills done (b ∷ todo) pre n =
    let next =
      rw (length-snoc done b, append_assoc, append_assoc) at
        (copy_bytes-fills (done ++ (b ∷ [])) todo pre n) in
    rw (suc-add, store-append pre, store_middle) next

pub put_uint16-Writes : (v : ℕ) → Writes (put_uint16 v) (little 2 v)
unfolding put_uint16
put_uint16-Writes v pre n = rw (
  length-little 2 v,
  two_zeros n,
  encode_uint16-little v pre (zeros n) 0 0,
  length-append,
  length-little 2 v,
  append_assoc,
)

pub put_uint32-Writes : (v : ℕ) → Writes (put_uint32 v) (little 4 v)
unfolding put_uint32
put_uint32-Writes v pre n = rw (
  length-little 4 v,
  four_zeros n,
  encode_uint32-little v pre (zeros n) 0 0 0 0,
  length-append,
  length-little 4 v,
  append_assoc,
)

pub put_byte-Writes : (v : ℕ) → Writes (put_byte v) (v ∷ [])
unfolding put_byte encode_byte store
put_byte-Writes v pre n =
    rw (one_zero n, store-append pre (0 ∷ zeros n) 0 v) (rw (length-append, append_assoc))

pub copy_bytes-Writes :
    (payload pre : List ℕ) (n : ℕ)
    → copy_bytes 0 payload (pre ++ zeros (length payload + n)) (length pre)
      ≡ ok (pre ++ (payload ++ zeros n))
copy_bytes-Writes payload pre n = copy_bytes-fills [] payload pre n

pub put_ip-Writes : (ip : Ip) → Writes (put_ip (length ip) ip) ip
unfolding put_ip
put_ip-Writes ip pre n = rw (
  copy_ip-copy_bytes [] ip (pre ++ zeros (length ip + n)) (length pre),
  copy_bytes-Writes ip pre n,
  length-append,
  append_assoc,
)

pub put_ip-Writes_at : (ip_len : ℕ) (ip : Ip) → length ip ≡ ip_len → Writes (put_ip ip_len ip) ip
put_ip-Writes_at ip_len ip e = subst (λ k. Writes (put_ip k ip) ip) e (put_ip-Writes ip)
