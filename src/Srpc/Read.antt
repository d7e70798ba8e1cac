-- ===== src/Srpc/Read.antt =====
-- `fullread` and `read_message` on a stream in pieces.
use xdrpp.Common.{
  ℕ, zero, suc, ◌-◌, ◌≤◌, ◌≡◌, ◌≢◌, refl, sym, ap, ◌∙◌, arith, false, List, [], ◌∷◌, ◌++◌, length,
  take, drop, append_assoc, append-nil, length-append, take-append_le, take-append_ge,
  drop-append_le, length-drop, drop-append_ge, ltb, ◌==◌, Bool-cases, inl, inr, ne→==, ltb→lt,
  ltb→le,
}
use xdrpp.MsgSock.Input.{ReadResult, got, again, failed}
use xdrpp.Srpc.{FullRead, bytes_read, fullread}

-- The kernel has bytes, in pieces of any sizes.
abbrev pub ArePieces : List ReadResult → Type 0
ArePieces [] = Unit
ArePieces (got bs ∷ kernel) = (length bs ≢ 0) × ArePieces kernel
ArePieces (_ ∷ kernel) = ⊥

abbrev pub stream : List ReadResult → List ℕ
stream [] = []
stream (got bs ∷ kernel) = bs ++ stream kernel
stream (_ ∷ kernel) = stream kernel

-- `n` bytes of the stream have been read behind `buf`, and the rest is left.
pub record Reads (n : ℕ) (buf : List ℕ) (kernel : List ReadResult) (r : FullRead) : Type 0 where
  pub left : List ReadResult
  pub ends : r ≡ bytes_read (buf ++ take n (stream kernel)) left
  pub pieces : ArePieces left
  pub rest : stream left ≡ drop n (stream kernel)

-- Where the stream has `n` bytes, `fullread` reads them, in whatever pieces they come.
pub fullread-Reads :
    (n : ℕ) (buf : List ℕ) (kernel : List ReadResult)
    → ArePieces kernel
    → n ≤ length (stream kernel)
    → Reads n buf kernel (fullread n buf kernel)
unfolding fullread
fullread-Reads zero buf [] p h = record {
  left = [];
  ends = ap (λ b. bytes_read b []) (sym (append-nil buf));
  pieces = tt;
  rest = refl;
}
fullread-Reads (suc n) buf [] p h = absurd (omega arith)
fullread-Reads n buf (again ∷ kernel) p h = absurd p
fullread-Reads n buf (failed ∷ kernel) p h = absurd p
fullread-Reads zero buf (got bs ∷ kernel) p h = record {
  left = got bs ∷ kernel;
  ends = ap (λ b. bytes_read b (got bs ∷ kernel)) (sym (append-nil buf));
  pieces = p;
  rest = refl;
}
fullread-Reads (suc m) buf (got bs ∷ kernel) (some', p) h = elim (Bool-cases (ltb n (length bs))) [
  | inl enough ↦
      rw (more, ne→== (length bs) 0 some', enough)
        (let le : n ≤ length bs = omega (arith, ltb→lt n (length bs) enough) in
          record {
            left = got (drop n bs) ∷ kernel;
            ends =
                ap (λ b. bytes_read (buf ++ b) (got (drop n bs) ∷ kernel))
                  (sym (take-append_le bs (stream kernel) n le));
            pieces = (omega (arith, length-drop n bs, ltb→lt n (length bs) enough), p);
            rest = sym (drop-append_le bs (stream kernel) n le);
          })
  | inr short ↦
      let le : length bs ≤ n = ltb→le n (length bs) short in
      let r : Reads (n - length bs) (buf ++ bs) kernel
          (fullread (n - length bs) (buf ++ bs) kernel) =
        fullread-Reads (n - length bs) (buf ++ bs) kernel p
          (omega (arith, length-append bs (stream kernel), h)) in
      rw (more, ne→== (length bs) 0 some', short)
        (record {
          left = r.left;
          ends =
              r.ends
              ∙ ap (λ b. bytes_read b r.left)
                  (append_assoc buf bs (take (n - length bs) (stream kernel))
                    ∙ ap (λ b. buf ++ b) (sym (take-append_ge bs (stream kernel) n le)));
          pieces = r.pieces;
          rest = r.rest ∙ sym (drop-append_ge bs (stream kernel) n le);
        })
]
  where
    n : ℕ
    n = suc m

    more : (n == 0) ≡ false
    more = ne→== n 0 (omega arith)
