-- ===== src/Knowledge/Filing.antt =====
-- When the documents and the rows of the vector store agree, and that the service keeps them so.
use mini_company.Prelude.{
  ℕ, ◌≤◌, ◌≡◌, ◌≢◌, inl, inr, refl, ap, sym, ◌∙◌, subst, Option, none, some, List, [], ◌∷◌, map,
  length, ◌==◌, Bool-cases, arith,
}
use mini_company.Prelude.Text.{Text}
use mini_company.Prelude.Dict.{lookup, lookup-insert, insert_cases, IsKeyed, insert-IsKeyed}
use mini_company.Knowledge.Domain.{SourceDocument, Row}
use mini_company.Knowledge.Rows.{rows_at, chunk_of, AreNumbered}
use mini_company.Knowledge.Library.{Library}
use mini_company.Knowledge.Indexing.{
  IsRun, raised, indexed, indexed_world, asked, as_indexed, cut-AreNumbered, rows_at-indexed,
  rows_at-other,
}
use mini_company.Knowledge.Chunking.Registry.{strategy_name}
use mini_company.Company.World.{Runtime, World, Result}

module _ (runtime : Runtime) where
  -- Documents are stored under their ids, ids still to be drawn are free, no two documents have
  -- the same hash, and a document has as many rows as it says, its chunks from 0 on; what is no
  -- document has none.
  pub record IsFiled (w : World) : Type 0 where
    pub keyed : IsKeyed w.documents
    pub named : (i : ℕ) (d : SourceDocument) → lookup i w.documents ≡ some d → d.id ≡ some i
    pub free : (k : ℕ) → w.drawn ≤ k → lookup (runtime.object_id k) w.documents ≡ none
    pub distinct :
        (i j : ℕ) (d e : SourceDocument)
        → lookup i w.documents ≡ some d
        → lookup j w.documents ≡ some e
        → d.content_hash ≡ e.content_hash
        → i ≡ j
    pub counted :
        (i : ℕ) (d : SourceDocument)
        → lookup i w.documents ≡ some d
        → length (rows_at (runtime.show_id i) w) ≡ d.chunk_count
    pub numbered :
        (i : ℕ) → AreNumbered (runtime.show_id i) 0 (map chunk_of (rows_at (runtime.show_id i) w))
    pub unfiled : (i : ℕ) → lookup i w.documents ≡ none → rows_at (runtime.show_id i) w ≡ []

  show_ne : (i j : ℕ) → i ≢ j → runtime.show_id i ≢ runtime.show_id j
  show_ne i j h e =
      h (ground (arith, sym (runtime.parse-show i) ∙ ap runtime.parse_id e ∙ runtime.parse-show j))

  length-map_chunk : (rows : List Row) → length (map chunk_of rows) ≡ length rows
  length-map_chunk [] = refl
  length-map_chunk (row ∷ rows) = cc (length-map_chunk rows)

  module _ (library : Library) (document : SourceDocument) (strategy_override : Option Text)
      (w : World) (sound : IsFiled w) (i : ℕ) (found : lookup i w.documents ≡ some document) where
    -- A document that is stored is indexed.
    pub index-IsFiled :
        (r : Result SourceDocument × World)
        → IsRun runtime library document strategy_override w r
        → IsFiled r.1
    index-IsFiled _ (raised e) = sound
    index-IsFiled _ (indexed j chunks vectors saved cut embedded same) =
        let (cs, vs) =
          rows_at-indexed runtime library document strategy_override w j chunks vectors same in
        let w' = indexed_world runtime library document strategy_override w j chunks vectors in
        let d' = as_indexed document (length chunks) (runtime.time w.reads) (
          strategy_name document.content_type
            (asked runtime library document strategy_override w)) in
        let own : j ≡ i = ground (arith, sound.named i document found) in
        let at_j : lookup j w.documents ≡ some document = rw own found in
        let other : (k : ℕ)
            → j ≢ k
            → rows_at (runtime.show_id k) w' ≡ rows_at (runtime.show_id k) w =
          λ k h.
            rows_at-other runtime library document strategy_override w j chunks vectors
              (runtime.show_id k) (show_ne j k h) in
        let count : length (rows_at (runtime.show_id j) w') ≡ length chunks =
          sym (length-map_chunk (rows_at (runtime.show_id j) w')) ∙ ap length cs in
        record {
          keyed = insert-IsKeyed j d' w.documents sound.keyed;
          named = λ k d h. elim (insert_cases j k d' d w.documents h) [
            | inl (e, same_) ↦ ground (arith, saved)
            | inr (differs, old) ↦ sound.named k d old
          ];
          free = λ k h.
              ground (arith, lookup-insert j (runtime.object_id k) d' w.documents, sound.free k h);
          distinct = λ a b d e ha hb h. elim (insert_cases j a d' d w.documents ha) [
            | inl (ja, same_a) ↦ elim (insert_cases j b d' e w.documents hb) [
              | inl (jb, same_b) ↦ ground arith
              | inr (differs, old) ↦
                  ground (arith, sound.distinct j b document e at_j old (ground arith))
            ]
            | inr (differs, old) ↦ elim (insert_cases j b d' e w.documents hb) [
              | inl (jb, same_b) ↦
                  ground (arith, sound.distinct a j d document old at_j (ground arith))
              | inr (differs', old') ↦ sound.distinct a b d e old old' h
            ]
          ];
          counted = λ k d h. elim (insert_cases j k d' d w.documents h) [
            | inl (e, same_) ↦ ground (arith, count)
            | inr (differs, old) ↦ ap length (other k differs) ∙ sound.counted k d old
          ];
          numbered = λ k. elim (Bool-cases (j == k)) [
            | inl e ↦
                let same_ : j ≡ k = ground arith in
                subst
                  (λ l.
                    AreNumbered (runtime.show_id l) 0
                      (map chunk_of (rows_at (runtime.show_id l) w')))
                  same_
                  (subst (AreNumbered (runtime.show_id j) 0) (sym cs) (
                    cut-AreNumbered runtime library document strategy_override w (runtime.show_id j)
                      chunks cut))
            | inr e ↦
                subst (λ rows. AreNumbered (runtime.show_id k) 0 (map chunk_of rows))
                  (sym (other k (ground arith))) (sound.numbered k)
          ];
          unfiled = λ k absent.
              let read = lookup-insert j k d' w.documents in
              other k (ground arith) ∙ sound.unfiled k (ground arith);
        }
