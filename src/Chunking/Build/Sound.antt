-- ===== src/Chunking/Build/Sound.antt =====
-- The loop body never raises on ranges that lie inside the tokens, and each chunk is a slice of
-- the source text.
use note_rag.Base.{
  ℕ, zero, suc, ◌+◌, ◌-◌, ◌≤◌, ◌<◌, ◌≡◌, refl, Option, some, List, [], ◌∷◌, map, length, slice,
  get_elem?, get_elem?-lt, All, arith, head?-slice, get_last?-slice, length-slice,
}
use note_rag.Base.Result.{ok}
use note_rag.Chunking.Tokens.{Text, Token, Ordered}
use note_rag.Chunking.Models.{Chunk, validate-ok}
use note_rag.Chunking.Cover.{Range, Fits}
use note_rag.Chunking.Build.{make_chunk, build}

abbrev pub token_range : Chunk → Range
token_range c = (c.metadata.token_start, c.metadata.token_end)

-- The indices count up from `i`.
abbrev pub IsNumbered : ℕ → List Chunk → Type 0
IsNumbered i [] = Unit
IsNumbered i (c ∷ cs) = (c.metadata.index ≡ i) × IsNumbered (i + 1) cs

-- The chunk is the text from its first token to its last one, and it is not empty.
pub record IsSlice (text : Text) (tokens : List Token) (source_id : Option Text) (c : Chunk)
    : Type 0 where
  pub first : Token
  pub last : Token
  pub is_first : get_elem? tokens c.metadata.token_start ≡ some first
  pub is_last : get_elem? tokens (c.metadata.token_end - 1) ≡ some last
  pub starts : c.metadata.char_start ≡ first.start
  pub ends : c.metadata.char_end ≡ last.end
  pub sliced : c.text ≡ slice text c.metadata.char_start c.metadata.char_end
  pub nonempty : c.metadata.char_start < c.metadata.char_end
  pub inside : c.metadata.char_end ≤ length text
  pub counted : c.metadata.token_count + c.metadata.token_start ≡ c.metadata.token_end
  pub sourced : c.metadata.source_id ≡ source_id

Ordered-le : (ts : List Token) (lo hi : ℕ) → Ordered lo hi ts → lo ≤ hi
Ordered-le [] lo hi h = h
Ordered-le (t ∷ ts) lo hi (a, b, c) = omega (arith, Ordered-le ts t.end hi c)

Ordered-span :
    (ts : List Token) (lo hi i j : ℕ) (a b : Token)
    → Ordered lo hi ts
    → get_elem? ts i ≡ some a
    → get_elem? ts j ≡ some b
    → i ≤ j
    → (lo ≤ a.start) × (a.start < b.end) × (b.end ≤ hi)
Ordered-span [] lo hi i j a b o p q h = cc
Ordered-span (t ∷ ts) lo hi zero zero a b (l, m, o) p q h = ground (arith, Ordered-le ts t.end hi o)
Ordered-span (t ∷ ts) lo hi zero (suc j) a b (l, m, o) p q h =
    let r = Ordered-span ts t.end hi j j b b o q q (omega arith) in ground arith
Ordered-span (t ∷ ts) lo hi (suc i) zero a b o p q h = absurd (omega arith)
Ordered-span (t ∷ ts) lo hi (suc i) (suc j) a b (l, m, o) p q h =
    let r = Ordered-span ts t.end hi i j a b o p q (omega arith) in omega arith

module _ (text : Text) (tokens : List Token) (source_id : Option Text)
    (ordered : Ordered 0 (length text) tokens) where
  make_chunk-ok :
      (i : ℕ) (r : Range)
      → Fits (length tokens) r
      → (c : Chunk) × (make_chunk text tokens source_id i r ≡ ok c)
        × (token_range c ≡ r)
        × (c.metadata.index ≡ i)
        × IsSlice text tokens source_id c
  unfolding make_chunk
  make_chunk-ok i (s, e) (lt, le) =
      let (first, p) = get_elem?-lt tokens s (omega arith) in
      let (last, q) = get_elem?-lt tokens (e - 1) (omega arith) in
      let (_, apart, inside) =
        Ordered-span tokens 0 (length text) s (e - 1) first last ordered p q (omega arith) in
      let size = length-slice text first.start last.end inside in
      let size' = length-slice tokens s e le in
      let c : Chunk = record {
        text = slice text first.start last.end;
        metadata = record {
          index = i;
          token_start = s;
          token_end = e;
          token_count = length (slice tokens s e);
          char_start = first.start;
          char_end = last.end;
          source_id = source_id;
        };
      } in
      (
        c,
        rw (head?-slice tokens s e lt, p, get_last?-slice tokens s e lt le, q)
            (validate-ok c (omega arith) (omega arith)),
        refl,
        refl,
        record {
          first = first;
          last = last;
          is_first = p;
          is_last = q;
          starts = refl;
          ends = refl;
          sliced = refl;
          nonempty = apart;
          inside = inside;
          counted = omega arith;
          sourced = refl;
        },
      )

  -- Over ranges that lie inside the tokens the loop returns, and makes one chunk of each range.
  pub build-ok :
      (i : ℕ) (rs : List Range)
      → All (Fits (length tokens)) rs
      → (cs : List Chunk) × (build text tokens source_id i rs ≡ ok cs)
        × (map token_range cs ≡ rs)
        × IsNumbered i cs
        × All (IsSlice text tokens source_id) cs
  unfolding build
  build-ok i [] h = ([], refl, refl, tt, tt)
  build-ok i (r ∷ rs) (fits, rest) =
      let (c, made, ranged, numbered, sound) = make_chunk-ok i r fits in
      let (cs, made', ranged', numbered', sound') = build-ok (i + 1) rs rest in
      (c ∷ cs, rw (made, made'), cc (ranged, ranged'), (numbered, numbered'), (sound, sound'))
