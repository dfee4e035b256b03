-- ===== src/Intents/Refresh/Laws.antt =====
-- What a refresh does to the intents and to the cache.
use intent_execution_layer.Common.{
  ◌+◌, ◌≡◌, refl, ap, ◌∙◌, Bool, not, ◌&&◌, List, [], ◌∷◌, ◌++◌, count_if, count_if-append, arith,
}
use intent_execution_layer.Common.Sort.{count_if-sort}
use intent_execution_layer.Text.{Text}
use intent_execution_layer.Intent.{Intent}
use intent_execution_layer.Intents.{intent_less, from_source, retained, replace_intents_by_source}

count_if-retained :
    (source : Text) (p : Intent → Bool) (intents : List Intent)
    → count_if p (retained source intents)
      ≡ count_if (λ i. not (from_source source i) && p i) intents
unfolding retained
count_if-retained source p [] = refl
count_if-retained source p (i ∷ intents) = ground (arith, count_if-retained source p intents)

-- Replacing the intents of a source keeps those of all other sources, takes out all of that source,
-- and puts in all new ones: for each test, as many intents pass it as were kept or put in.
pub count_if-replace_intents_by_source :
    (source : Text) (replacement intents : List Intent) (p : Intent → Bool)
    → count_if p (replace_intents_by_source source replacement intents)
      ≡ count_if (λ i. not (from_source source i) && p i) intents + count_if p replacement
unfolding replace_intents_by_source
count_if-replace_intents_by_source source replacement intents p =
    count_if-sort intent_less p (retained source intents ++ replacement)
    ∙ count_if-append p (retained source intents) replacement
    ∙ ap (λ n. n + count_if p replacement) (count_if-retained source p intents)
