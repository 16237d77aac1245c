-- ===== src/Tests/Searching.antt =====
-- The searches on the sample index, with numbers in place of floats.
use ai_chatbot.Base.{
  ℕ, ◌+◌, ◌*◌, String, List, [], ◌∷◌, ◌≡◌, refl, ok, arith, ltb, ◌==◌, nat_eq, string_eq,
}
use ai_chatbot.Base.Dict.{Dict, keys, lookup}
use ai_chatbot.Base.Sorting.{IsOrder, IsTop}
use ai_chatbot.Platform.Models.{IndexHit}
use ai_chatbot.Platform.Index.Memory.{active_chunks, add_chunk_set, open_intervals, close_intervals}
use ai_chatbot.Platform.Index.Search.{Floats, better, search_dense, search_lexical, terms}
use ai_chatbot.Platform.Index.Search.Laws.{HasEmbeddings, DenseAnswers, search_dense_lem}
use ai_chatbot.Platform.Index.Search.Lexical.{LexicalAnswers, sharing, search_lexical_lem}
use ai_chatbot.Platform.Index.Search.Dimension.{index-HasEmbeddings}
use ai_chatbot.Tests.Sample.{index, set_b}
use ai_chatbot.Tests.Publishing.{index-IsValid}

abbrev numbers : Floats ℕ
numbers = record {
  zero_ = 0;
  add = λ a b. a + b;
  mul = λ a b. a * b;
  div = λ a b. a;
  sqrt = λ a. a;
  is_zero = λ a. a == 0;
  less = ltb;
  ratio = λ m n. m;
}

numbers-IsOrder : IsOrder ltb
numbers-IsOrder = record {
  asymmetric = λ x y h. ground arith;
  transitive = λ x y z near far. ground arith;
}

index-sized : HasEmbeddings 2 index
unfolding lookup
index-sized c h = ground arith

search_dense_example :
    (d : Dict String) × (found : List (IndexHit ℕ)) × (hits : List (IndexHit ℕ)) × (active_chunks 1
        index
      ≡ ok d)
    × DenseAnswers numbers (3 ∷ 4 ∷ []) index (keys d) found
    × (search_dense numbers (3 ∷ 4 ∷ []) 1 5 index ≡ ok hits)
    × IsTop (better numbers) 5 found hits
search_dense_example =
    search_dense_lem numbers index (3 ∷ 4 ∷ []) 1 5 numbers-IsOrder index-IsValid index-sized

search_lexical_example :
    (d : Dict String) × (found : List (IndexHit ℕ)) × (hits : List (IndexHit ℕ)) × (active_chunks 1
        index
      ≡ ok d)
    × LexicalAnswers numbers
        (λ text. text)
        (terms (λ text. text) "a text")
        index
        (sharing numbers (λ text. text) (terms (λ text. text) "a text") index (keys d))
        found
    × (search_lexical numbers (λ text. text) "a text" 1 5 index ≡ ok hits)
    × IsTop (better numbers) 5 found hits
search_lexical_example =
    search_lexical_lem numbers (λ text. text) index "a text" 1 5 numbers-IsOrder (λ m n. refl)
      index-IsValid

index-HasEmbeddings_example :
    HasEmbeddings 2 (add_chunk_set set_b index).1
    × HasEmbeddings 2 (open_intervals ("a1" ∷ []) 2 index).1
    × HasEmbeddings 2 (close_intervals ("a1" ∷ []) 2 index).1
index-HasEmbeddings_example =
    index-HasEmbeddings 2 index set_b ("a1" ∷ []) 2 (ground arith) index-sized
