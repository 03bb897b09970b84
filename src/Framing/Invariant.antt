-- ===== src/Framing/Invariant.antt =====
-- What the variables of getMessage's loops say of the characters read so far.
use kvnorcom.Prelude.{
  ℕ, zero, suc, ◌+◌, ◌≤◌, ◌<◌, ◌≡◌, refl, sym, ap, ◌∙◌, Bool, true, false, [], ◌∷◌, ◌++◌, ◌==◌,
  ==_iff, ltb, ltb→lt, inl, inr, Bool-cases, length, all, get_elem?, append_assoc, append-nil,
  length-append, if◌then◌else◌, arith,
}
use kvnorcom.Prelude.Bytes.{Bytes, codes}
use kvnorcom.Outcome.{Outcome, returns, or_fault}
use kvnorcom.Stream.{IStream}
use kvnorcom.Framing.{Scan, nnnn, match_nnnn}
use kvnorcom.Framing.Steps.{is_eol, is_mark, match_other, match_eol, match_n}

-- The number of line ends.
abbrev pub eols : Bytes → ℕ
eols [] = 0
eols (c ∷ cs) = (if is_eol c then 1 else 0) + eols cs

abbrev pub ns : ℕ → Bytes
ns zero = []
ns (suc k) = b'N' ∷ ns k

-- The state of the search: what has been read is a body, then `count` characters of the mark, the
-- last `innn` of them N.
pub record Inv (v : Scan) : Type 0 where
  pub body : Bytes
  pub tail : Bytes
  pub sent_is : v.sent ≡ body ++ (tail ++ ns v.innn)
  pub tail_mark : all is_mark tail ≡ true
  pub eols_is : eols tail ≡ v.rn_count
  pub count_is : v.count ≡ length tail + v.innn

-- The same behind NNNN.
pub record EndInv (v : Scan) : Type 0 where
  pub body : Bytes
  pub tail : Bytes
  pub behind : Bytes
  pub sent_is : v.sent ≡ body ++ (tail ++ (codes "NNNN" ++ behind))
  pub tail_mark : all is_mark tail ≡ true
  pub tail_eols : 2 < eols tail
  pub behind_eols : all is_eol behind ≡ true
  pub rn_is : v.rn_count ≡ length behind
  pub count_is : v.count ≡ length tail + 4 + length behind

-- The four ways of one round.
pub data Round (v : Scan) : Outcome Scan → Type 0 where
  reset :
      {r : Outcome Scan} → r ≡ returns (record v { innn = 0; rn_count = 0; count = 0 }) → Round v r
  eol :
      {r : Outcome Scan}
      → is_eol v.ch ≡ true
      → r ≡ returns (record v { innn = 0; rn_count = v.rn_count + 1; count = v.count + 1 })
      → Round v r
  next :
      {r : Outcome Scan}
      → v.innn < 4
      → v.ch ≡ b'N'
      → r ≡ returns (record v { innn = v.innn + 1; count = v.count + 1 })
      → Round v r
  beyond :
      {r : Outcome Scan}
      → v.innn ≡ 4
      → v.ch ≡ 0
      → r ≡ returns (record v { innn = v.innn + 1; count = v.count + 1 })
      → Round v r

-- Behind a fourth N with too few line ends in front.
fourth : (v : Scan) → v.innn ≡ 4 → or_fault (get_elem? nnnn v.innn) ≡ returns 0
fourth v h = rw h

match_fourth_other :
    (v : Scan)
    → v.innn ≡ 4
    → is_eol v.ch ≡ false
    → (0 == v.ch) ≡ false
    → match_nnnn v ≡ returns (record v { innn = 0; rn_count = 0; count = 0 })
unfolding match_nnnn
match_fourth_other v h e z = rw (fourth v h) (rw (z, e))

match_fourth_nul :
    (v : Scan)
    → v.innn ≡ 4
    → (0 == v.ch) ≡ true
    → match_nnnn v ≡ returns (record v { innn = v.innn + 1; count = v.count + 1 })
unfolding match_nnnn
match_fourth_nul v h z = rw (fourth v h) (rw z)

pub match_nnnn-Round : (v : Scan) → v.innn ≤ 4 → Round v (match_nnnn v)
match_nnnn-Round v h = elim (Bool-cases (is_eol v.ch)) [
  | inl e ↦ Round.eol e (match_eol v (omega arith) e)
  | inr text ↦ elim (Bool-cases (ltb v.innn 4)) [
    | inl few ↦ elim (Bool-cases (v.ch == b'N')) [
      | inl n ↦
          Round.next (ltb→lt _ _ few) ((==_iff _ _).0 n)
            (match_n v (ltb→lt _ _ few) ((==_iff _ _).0 n))
      | inr other ↦ Round.reset (match_other v (ltb→lt _ _ few) (rw (other, text)))
    ]
    | inr many ↦ elim (Bool-cases (0 == v.ch)) [
      | inl nul ↦ Round.beyond (ground arith) (ground arith) (match_fourth_nul v (ground arith) nul)
      | inr other ↦ Round.reset (match_fourth_other v (ground arith) text other)
    ]
  ]
]

ns-concat : (k : ℕ) → ns k ++ b'N' ∷ [] ≡ ns (k + 1)
ns-concat zero = refl
ns-concat (suc k) = ap (◌∷◌ b'N') (ns-concat k) ∙ ap ns (more k)
  where
    more : (k : ℕ) → suc (k + 1) ≡ suc k + 1
    more k = omega arith

length-ns : (k : ℕ) → length (ns k) ≡ k
length-ns zero = refl
length-ns (suc k) = ap suc (length-ns k)

all-append :
    (p : ℕ → Bool) (xs ys : Bytes) → all p xs ≡ true → all p ys ≡ true → all p (xs ++ ys) ≡ true
all-append p [] ys h e = e
all-append p (x ∷ xs) ys h e = ground (arith, all-append p xs ys)

all-ns : (k : ℕ) → all is_mark (ns k) ≡ true
all-ns zero = refl
all-ns (suc k) = all-ns k

eols-append : (xs ys : Bytes) → eols (xs ++ ys) ≡ eols xs + eols ys
eols-append [] ys = omega arith
eols-append (x ∷ xs) ys = omega (arith, eols-append xs ys)

eols-ns : (k : ℕ) → eols (ns k) ≡ 0
eols-ns zero = refl
eols-ns (suc k) = ground (arith, eols-ns k)

n_regroup :
    (body tail : Bytes) (k c : ℕ)
    → c ≡ b'N'
    → (body ++ (tail ++ ns k)) ++ c ∷ [] ≡ body ++ (tail ++ ns (k + 1))
n_regroup body tail k c e =
    rw e (simp append_assoc (ap (λ (t : Bytes). body ++ (tail ++ t)) (ns-concat k)))

eol-is_mark : (c : ℕ) → is_eol c ≡ true → all is_mark (c ∷ []) ≡ true
eol-is_mark c h = ground arith

-- One character more, `c`, has been read.
module _ (v : Scan) (c : ℕ) (s : IStream) (i : Inv v) where
  abbrev pub read : Scan
  read = record v { sent = v.sent ++ c ∷ []; ch = c; stream = s }

  pub reset-Inv : Inv (record read { innn = 0; rn_count = 0; count = 0 })
  reset-Inv = record {
    body = v.sent ++ c ∷ [];
    tail = [];
    sent_is = sym (append-nil (v.sent ++ c ∷ []));
    tail_mark = refl;
    eols_is = refl;
    count_is = omega arith;
  }

  pub next-Inv : c ≡ b'N' → Inv (record read { innn = v.innn + 1; count = v.count + 1 })
  next-Inv n = record {
    body = i.body;
    tail = i.tail;
    sent_is = ap (λ (t : Bytes). t ++ c ∷ []) i.sent_is ∙ n_regroup i.body i.tail v.innn c n;
    tail_mark = i.tail_mark;
    eols_is = i.eols_is;
    count_is = omega (arith, i.count_is);
  }

  pub eol-Inv :
      is_eol c ≡ true
      → Inv (record read { innn = 0; rn_count = v.rn_count + 1; count = v.count + 1 })
  eol-Inv e = record {
    body = i.body;
    tail = i.tail ++ (ns v.innn ++ c ∷ []);
    sent_is = ap (λ (t : Bytes). t ++ c ∷ []) i.sent_is ∙ simp (append_assoc, append-nil);
    tail_mark =
        all-append is_mark i.tail _ i.tail_mark
          (all-append is_mark (ns v.innn) (c ∷ []) (all-ns v.innn) (eol-is_mark c e));
    eols_is = omega (
      arith,
      eols-append i.tail (ns v.innn ++ c ∷ []),
      eols-append (ns v.innn) (c ∷ []),
      eols-ns v.innn,
      one,
      i.eols_is,
    );
    count_is = omega (
      arith,
      length-append i.tail (ns v.innn ++ c ∷ []),
      length-append (ns v.innn) (c ∷ []),
      length-ns v.innn,
      i.count_is,
    );
  }
    where
      one : eols (c ∷ []) ≡ 1
      one = rw e

  -- At the fourth N with line ends enough in front.
  pub end-EndInv :
      (r : ℕ)
      → c ≡ b'N'
      → v.innn ≡ 3
      → 2 < v.rn_count
      → r ≡ 0
      → EndInv (record read { innn = v.innn + 1; count = v.count + 1; rn_count = r })
  end-EndInv r n three enough z = record {
    body = i.body;
    tail = i.tail;
    behind = [];
    sent_is =
        ap (λ (t : Bytes). t ++ c ∷ []) i.sent_is
        ∙ n_regroup i.body i.tail v.innn c n
        ∙ ap (λ (k : ℕ). i.body ++ (i.tail ++ ns (k + 1))) three;
    tail_mark = i.tail_mark;
    tail_eols = omega (arith, i.eols_is);
    behind_eols = refl;
    rn_is = z;
    count_is = omega (arith, i.count_is);
  }

module _ (v : Scan) (c : ℕ) (s : IStream) (i : EndInv v) where
  pub behind-EndInv :
      is_eol c ≡ true
      → EndInv (record v {
        rn_count = v.rn_count + 1;
        count = v.count + 1;
        sent = v.sent ++ c ∷ [];
        ch = c;
        stream = s;
      })
  behind-EndInv e = record {
    body = i.body;
    tail = i.tail;
    behind = i.behind ++ c ∷ [];
    sent_is = ap (λ (t : Bytes). t ++ c ∷ []) i.sent_is ∙ simp append_assoc;
    tail_mark = i.tail_mark;
    tail_eols = i.tail_eols;
    behind_eols = all-append is_eol i.behind (c ∷ []) i.behind_eols (rw e);
    rn_is = omega (arith, i.rn_is, length-append i.behind (c ∷ []));
    count_is = omega (arith, i.count_is, length-append i.behind (c ∷ []));
  }
