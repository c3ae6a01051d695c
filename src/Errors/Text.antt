-- ===== src/Errors/Text.antt =====
-- Texts as lists of code points, with the `str` methods that the error messages are read by.
use Prim.Native.Char.{code}
use Prim.Native.String.{String}
use hemera_indexer.Prelude.{
  Eq, nat_discrete, ◌≡◌, ◌↔◌, refl, arith, ℕ, ◌+◌, Bool, true, false, ◌&&◌, ◌||◌, List, [], ◌∷◌,
  map, if◌then◌else◌, leb, ◌==◌, nat_eq,
}

abbrev pub Message : Type 0
Message = List ℕ

abbrev pub codes : String → Message
codes String.[] = []
codes (String.◌∷◌ c s) = code c ∷ codes s

-- `str.lower` on the letters of ASCII; it is only used to look for words of such letters.
lower_code : ℕ → ℕ
lower_code c = if leb b'A' c && leb c b'Z' then c + 32 else c

unfoldable pub lower : Message → Message
unfolding lower_code
lower = map lower_code

unfoldable pub starts_with : Message → Message → Bool
starts_with [] text = true
starts_with (c ∷ word) [] = false
starts_with (c ∷ word) (d ∷ text) = c == d && starts_with word text

-- `text.find(word) != -1`
unfoldable pub has_text : Message → Message → Bool
unfolding starts_with
has_text word [] = starts_with word []
has_text word (c ∷ text) = starts_with word (c ∷ text) || has_text word text

-- `s == t`
unfoldable pub same_text : Message → Message → Bool
same_text [] [] = true
same_text (c ∷ s) (d ∷ t) = c == d && same_text s t
same_text _ _ = false

pub Message-discrete : Discrete Message
Message-discrete = hlevel nat_discrete

same_text-eq : (s t : Message) → same_text s t ≡ true → s ≡ t
unfolding same_text
same_text-eq [] [] h = refl
same_text-eq [] (d ∷ t) h = cc
same_text-eq (c ∷ s) [] h = cc
same_text-eq (c ∷ s) (d ∷ t) h =
    let firsts : c ≡ d = ground arith in let rest : s ≡ t = same_text-eq s t (ground arith) in cc

same_text_refl : (s : Message) → same_text s s ≡ true
unfolding same_text
same_text_refl [] = refl
same_text_refl (c ∷ s) = ground (arith, same_text_refl s)

pub same_text_iff : (s t : Message) → (same_text s t ≡ true) ↔ (s ≡ t)
same_text_iff s t = (same_text-eq s t, λ p. rw p (same_text_refl t))

instance abbrev pub message_eq : Eq Message
message_eq = record { beq = same_text; beq_iff = same_text_iff }
