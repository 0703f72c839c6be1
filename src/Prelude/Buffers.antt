-- ===== src/Prelude/Buffers.antt =====
-- Byte buffers: what `std::memcpy` does to them.
use Prim.Native.Nat.{ℕ, ◌+◌, ◌≤◌}
use mathlib.Core.Path.{◌≡◌, ap, sym, ◌∙◌}
use mathlib.Core.Bool.{◌&&◌}
use mathlib.Core.List.{List, ◌++◌, append-nil}
use native.Mathlib.Omega.{arith}
use cpp_rt_pubsub.Prelude.Tests.{leb, if◌then◌else◌}
use cpp_rt_pubsub.Prelude.Results.{Result, ok, err, out_of_bounds}
use cpp_rt_pubsub.Prelude.Lists.{
  length, take, drop, length-append, length-take, length-drop, take-append, drop-append, drop_all,
}

abbrev pub Bytes : Type 0
Bytes = List ℕ

-- The bytes of `dst` once `n` bytes of `src` are written at `offset`.
abbrev pub overwrite : Bytes → ℕ → Bytes → ℕ → Bytes
overwrite dst offset src n = take offset dst ++ (take n src ++ drop (offset + n) dst)

-- `std::memcpy(dst + offset, src, n)`: both ranges lie in their objects, or the behaviour is undefined.
unfoldable pub memcpy : Bytes → ℕ → Bytes → ℕ → Result Bytes
memcpy dst offset src n =
    if leb (offset + n) (length dst) && leb n (length src)
    then ok (overwrite dst offset src n)
    else err out_of_bounds

pub memcpy-ok :
    (dst : Bytes) (offset : ℕ) (src : Bytes) (n : ℕ)
    → offset + n ≤ length dst
    → n ≤ length src
    → memcpy dst offset src n ≡ ok (overwrite dst offset src n)
unfolding memcpy
memcpy-ok dst offset src n hd hs = ground arith

pub length-overwrite :
    (dst : Bytes) (offset : ℕ) (src : Bytes) (n : ℕ)
    → offset + n ≤ length dst
    → n ≤ length src
    → length (overwrite dst offset src n) ≡ length dst
length-overwrite dst offset src n hd hs = omega (
  arith,
  length-append (take offset dst) (take n src ++ drop (offset + n) dst),
  length-append (take n src) (drop (offset + n) dst),
  length-take offset dst,
  length-take n src,
  length-drop (offset + n) dst,
)

-- A copy keeps the length of its target.
pub length-memcpy :
    (dst : Bytes) (offset : ℕ) (src : Bytes) (n : ℕ) {out : Bytes}
    → memcpy dst offset src n ≡ ok out
    → length out ≡ length dst
unfolding memcpy
length-memcpy dst offset src n e = ground (arith, length-overwrite dst offset src n)

pub drop_of_length : (xs ys : Bytes) (n : ℕ) → length xs ≡ n → drop n (xs ++ ys) ≡ ys
drop_of_length xs ys n e = ap (λ k. drop k (xs ++ ys)) (sym e) ∙ drop-append xs ys

pub take_of_length : (xs ys : Bytes) (n : ℕ) → length xs ≡ n → take n (xs ++ ys) ≡ xs
take_of_length xs ys n e = ap (λ k. take k (xs ++ ys)) (sym e) ∙ take-append xs ys

-- A copy up to the end leaves exactly the copied bytes from its offset on.
pub drop-overwrite :
    (dst : Bytes) (offset : ℕ) (src : Bytes) (n : ℕ)
    → offset + n ≡ length dst
    → drop offset (overwrite dst offset src n) ≡ take n src
drop-overwrite dst offset src n e =
    drop_of_length (take offset dst) (take n src ++ drop (offset + n) dst) offset
      (omega (arith, length-take offset dst))
    ∙ ap (◌++◌ (take n src)) (drop_all (offset + n) dst (omega arith))
    ∙ append-nil (take n src)

-- A copy leaves the bytes before its offset.
pub take-overwrite :
    (dst : Bytes) (offset : ℕ) (src : Bytes) (n : ℕ)
    → offset ≤ length dst
    → take offset (overwrite dst offset src n) ≡ take offset dst
take-overwrite dst offset src n h =
    take_of_length (take offset dst) (take n src ++ drop (offset + n) dst) offset
      (omega (arith, length-take offset dst))
