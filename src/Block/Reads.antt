-- ===== src/Block/Reads.antt =====
-- Readers that take printed bytes off the front of any input, with the rule for each way in which
-- Block.Decode puts readers together.
use clickhouse_go.Common.{Bool, true, [], ◌++◌, ◌≡◌, refl, ap, ◌∙◌}
use mathlib.Core.List.{append_assoc}
use clickhouse_go.Block.{guard, Bytes, Reader, done, continue, ◌>>=◌, give, wrap, wrapped}

-- The reader `m` takes `printed` off the front of any input and gives `a`.
pub record Reads {E A : Type 0} (m : Reader E A) (printed : Bytes) (a : A) : Type 0 where
  pub apply : (rest : Bytes) → m (printed ++ rest) ≡ done a rest

module _ {E A B : Type 0} {m : Reader E A} (f : A → Reader E B) {a : A} {b : B} where
  pub Reads-bind : {xs ys : Bytes} → Reads m xs a → Reads (f a) ys b → Reads (m >>= f) (xs ++ ys) b
  unfolding ◌>>=◌
  Reads-bind {xs} {ys} hm hf = record {
    apply = λ rest.
        ap (λ l. continue (m l) f) (append_assoc xs ys rest)
        ∙ ap (λ r. continue r f) (hm.apply (ys ++ rest))
        ∙ hf.apply rest;
  }

  pub Reads-last : {xs : Bytes} → Reads m xs a → Reads (f a) [] b → Reads (m >>= f) xs b
  unfolding ◌>>=◌
  Reads-last hm hf = record {
    apply = λ rest. ap (λ r. continue r f) (hm.apply rest) ∙ hf.apply rest;
  }

pub Reads-give : {E A : Type 0} {a : A} → Reads {E = E} (give a) [] a
unfolding give
Reads-give = record { apply = λ rest. refl }

pub Reads-wrap :
    {E F A : Type 0} (g : E → F) {m : Reader E A} {a : A} {xs : Bytes}
    → Reads m xs a
    → Reads (wrap g m) xs a
unfolding wrap
Reads-wrap g hm = record { apply = λ rest. ap (wrapped g) (hm.apply rest) }

pub widened :
    {E F A : Type 0} (g : E → F) (a : A) {b : A} {xs : Bytes}
    → Reads {E = E} (give a) xs b
    → Reads {E = F} (give a) xs b
unfolding give wrapped
widened g a hm = record { apply = λ rest. ap (wrapped g) (hm.apply rest) }

pub Reads-guard : {E : Type 0} {t : Bool} (e : E) → t ≡ true → Reads (guard t e) [] tt
Reads-guard e h = rw h Reads-give
