-- ===== src/Wire/Rest.antt =====
-- The bytes that are still to be read at an index pointer, and what each read makes of them.
use smudge.Prelude.{
  ℕ, ◌+◌, ◌^◌, ◌<◌, ◌≡◌, refl, sym, ◌∙◌, List, [], ◌∷◌, ◌++◌, length, length-append, append_assoc,
  arith,
}
use smudge.Prelude.Outcome.{ok}
use native.Mathlib.Nat.{add-zero}
use smudge.Bytes.{index, decode_uint16, decode_uint32}
use smudge.Bytes.Little.{little, index-append, decode_uint16-little, decode_uint32-little}
use smudge.Wire.{slice, decode_ip}
use smudge.Wire.Read.{IsIpLen, expand, decode_ip-append, slice-append}

pub record Rest (elems : List ℕ) (p : ℕ) (rest : List ℕ) : Type 0 where
  pub pre : List ℕ
  pub split : elems ≡ pre ++ rest
  pub at : p ≡ length pre

pub Rest-start : (elems : List ℕ) → Rest elems 0 elems
Rest-start elems = record { pre = []; split = refl; at = refl }

-- Past `bs`.
pub Rest-advance :
    (elems : List ℕ) (p : ℕ) (bs rest : List ℕ) (n : ℕ)
    → Rest elems p (bs ++ rest)
    → length bs ≡ n
    → Rest elems (p + n) rest
Rest-advance elems p bs rest n r e = record {
  pre = r.pre ++ bs;
  split = r.split ∙ sym (append_assoc r.pre bs rest);
  at = omega (arith, r.at, length-append r.pre bs);
}

pub index-Rest :
    (elems : List ℕ) (p x : ℕ) (rest : List ℕ) → Rest elems p (x ∷ rest) → index elems p ≡ ok x
index-Rest elems p x rest r =
    rw (r.split, r.at, ← add-zero (length r.pre), index-append) (unfold index in refl)

pub decode_uint16-Rest :
    (elems : List ℕ) (p n : ℕ) (rest : List ℕ)
    → Rest elems p (little 2 n ++ rest)
    → n < 2 ^ 16
    → decode_uint16 elems p ≡ ok (n, p + 2)
decode_uint16-Rest elems p n rest r h = rw (r.split, r.at) (decode_uint16-little n r.pre rest h)

pub decode_uint32-Rest :
    (elems : List ℕ) (p n : ℕ) (rest : List ℕ)
    → Rest elems p (little 4 n ++ rest)
    → n < 2 ^ 32
    → decode_uint32 elems p ≡ ok (n, p + 4)
decode_uint32-Rest elems p n rest r h = rw (r.split, r.at) (decode_uint32-little n r.pre rest h)

pub decode_ip-Rest :
    (ip_len : ℕ) (elems spare : List ℕ) (p : ℕ) (raw rest : List ℕ)
    → IsIpLen ip_len
    → length raw ≡ ip_len
    → Rest elems p (raw ++ rest)
    → decode_ip ip_len (record { elems = elems; spare = spare }) p
      ≡ ok (expand ip_len raw, p + ip_len)
decode_ip-Rest ip_len elems spare p raw rest h e r =
    rw (r.split, r.at) (decode_ip-append ip_len raw r.pre rest spare h e)

pub slice-Rest :
    (elems spare : List ℕ) (p : ℕ) (mid rest : List ℕ) (n : ℕ)
    → length mid ≡ n
    → Rest elems p (mid ++ rest)
    → slice (record { elems = elems; spare = spare }) p (p + n)
      ≡ ok (record { elems = mid; spare = rest ++ spare })
slice-Rest elems spare p mid rest n e r =
    rw (← e, r.split, r.at) (slice-append r.pre mid rest spare)
