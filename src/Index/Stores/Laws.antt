-- ===== src/Index/Stores/Laws.antt =====
-- Reading what was stored (wks/api/index/_ChunkStore.py).
use wks.Common.{
  String, ◌≡◌, refl, ◌≢◌, Bool, List, [], ◌∷◌, ◌++◌, map, ◌==◌, string_eq, if◌then◌else◌, keep_if,
  drop_if, arith, Bool-cases, inl, inr, ap, ◌∙◌, sym, subst, append-nil,
}
use wks.Database.{Collection, IsLawful}
use wks.Index.Chunker.{Chunk}
use wks.Index.Stores.{
  ChunkDoc, in_index, of_uri, doc_of, chunk_of, insert_docs, replace_uri, get_all,
}

module _ {D : Type 0} (p : D → Bool) where
  keep_if-append : (xs ys : List D) → keep_if p (xs ++ ys) ≡ keep_if p xs ++ keep_if p ys
  keep_if-append [] ys = refl
  keep_if-append (x ∷ xs) ys = ground (arith, keep_if-append xs ys)

map-append {ℓ κ} :
    {A : Type ℓ} {B : Type κ} (f : A → B) (xs ys : List A) → map f (xs ++ ys) ≡ map f xs ++ map f ys
map-append f [] ys = refl
map-append f (x ∷ xs) ys = ap (λ zs. f x ∷ zs) (map-append f xs ys)

stored :
    (index_name checksum : String) (chunks : List Chunk)
    → map chunk_of (keep_if (in_index index_name) (map (doc_of index_name checksum) chunks))
      ≡ chunks
stored index_name checksum [] = refl
stored index_name checksum (c ∷ chunks) = ground (arith, stored index_name checksum chunks)

elsewhere :
    (index_name other checksum : String) (chunks : List Chunk)
    → other ≢ index_name
    → keep_if (in_index other) (map (doc_of index_name checksum) chunks) ≡ []
elsewhere index_name other checksum [] h = refl
elsewhere index_name other checksum (c ∷ chunks) h =
    ground (arith, h, elsewhere index_name other checksum chunks h)

drop-own :
    (index_name uri : String) (docs : List ChunkDoc)
    → map chunk_of (keep_if (in_index index_name) (drop_if (of_uri index_name uri) docs))
      ≡ drop_if (λ c. c.uri == uri) (map chunk_of (keep_if (in_index index_name) docs))
drop-own index_name uri [] = refl
drop-own index_name uri (d ∷ docs) = ground (arith, drop-own index_name uri docs)

drop-other :
    (index_name other uri : String) (docs : List ChunkDoc)
    → other ≢ index_name
    → keep_if (in_index other) (drop_if (of_uri index_name uri) docs)
      ≡ keep_if (in_index other) docs
drop-other index_name other uri [] h = refl
drop-other index_name other uri (d ∷ docs) h =
    ground (arith, h, drop-other index_name other uri docs h)

module _ (C : Collection ChunkDoc) (L : IsLawful C) where
  all-insert_docs :
      (s : C.State) (docs : List ChunkDoc) → C.all (insert_docs C s docs) ≡ C.all s ++ docs
  all-insert_docs s [] = sym (append-nil (C.all s))
  all-insert_docs s (d ∷ docs) = L.all-insert_many s (d ∷ docs)

  all-replace_uri :
      (index_name uri checksum : String) (chunks : List Chunk) (s : C.State)
      → C.all (replace_uri C index_name uri checksum chunks s).1
        ≡ drop_if (of_uri index_name uri) (C.all s) ++ map (doc_of index_name checksum) chunks
  unfolding replace_uri
  all-replace_uri index_name uri checksum chunks s =
      all-insert_docs (C.delete_many s (of_uri index_name uri))
        (map (doc_of index_name checksum) chunks)
      ∙ ap (λ ds. ds ++ map (doc_of index_name checksum) chunks)
          (L.all-delete_many s (of_uri index_name uri))

  get_all-split :
      (index_name uri checksum : String) (chunks : List Chunk) (s : C.State) (other : String)
      → get_all C other (replace_uri C index_name uri checksum chunks s).1
        ≡ map chunk_of (keep_if (in_index other) (drop_if (of_uri index_name uri) (C.all s)))
          ++ map chunk_of (keep_if (in_index other) (map (doc_of index_name checksum) chunks))
  unfolding get_all
  get_all-split index_name uri checksum chunks s other =
      let old = drop_if (of_uri index_name uri) (C.all s) in
      let new = map (doc_of index_name checksum) chunks in
      ap (λ ds. map chunk_of (keep_if (in_index other) ds))
        (all-replace_uri index_name uri checksum chunks s)
      ∙ ap (map chunk_of) (keep_if-append (in_index other) old new)
      ∙ map-append chunk_of (keep_if (in_index other) old) (keep_if (in_index other) new)

  own-replace_uri :
      (index_name uri checksum : String) (chunks : List Chunk) (s : C.State)
      → get_all C index_name (replace_uri C index_name uri checksum chunks s).1
        ≡ drop_if (λ c. c.uri == uri) (get_all C index_name s) ++ chunks
  unfolding get_all
  own-replace_uri index_name uri checksum chunks s =
      let new = map (doc_of index_name checksum) chunks in
      get_all-split index_name uri checksum chunks s index_name
      ∙ ap (λ cs. cs ++ map chunk_of (keep_if (in_index index_name) new))
          (drop-own index_name uri (C.all s))
      ∙ ap (λ cs. drop_if (λ c. c.uri == uri) (get_all C index_name s) ++ cs)
          (stored index_name checksum chunks)

  other-replace_uri :
      (index_name uri checksum : String) (chunks : List Chunk) (s : C.State) (other : String)
      → other ≢ index_name
      → get_all C other (replace_uri C index_name uri checksum chunks s).1 ≡ get_all C other s
  unfolding get_all
  other-replace_uri index_name uri checksum chunks s other h =
      let old = drop_if (of_uri index_name uri) (C.all s) in
      get_all-split index_name uri checksum chunks s other
      ∙ ap (λ ds. map chunk_of (keep_if (in_index other) old) ++ map chunk_of ds)
          (elsewhere index_name other checksum chunks h)
      ∙ append-nil _
      ∙ ap (map chunk_of) (drop-other index_name other uri (C.all s) h)

  -- After the chunks of a document are replaced, its index has the chunks that it had for other documents and
  -- then the new ones, and every other index is as before.
  pub get_all-replace_uri :
      (index_name uri checksum : String) (chunks : List Chunk) (s : C.State) (other : String)
      → get_all C other (replace_uri C index_name uri checksum chunks s).1 ≡ (
          if other == index_name
          then drop_if (λ c. c.uri == uri) (get_all C index_name s) ++ chunks
          else get_all C other s)
  get_all-replace_uri index_name uri checksum chunks s other =
      elim (Bool-cases (other == index_name)) [
        | inl e ↦
            let same : other ≡ index_name = ground (arith, e) in
            rw e (
              subst
                (λ o.
                  get_all C o (replace_uri C index_name uri checksum chunks s).1
                  ≡ drop_if (λ c. c.uri == uri) (get_all C index_name s) ++ chunks)
                (sym same) (own-replace_uri index_name uri checksum chunks s))
        | inr e ↦
            rw e (other-replace_uri index_name uri checksum chunks s other (ground (arith, e)))
      ]
