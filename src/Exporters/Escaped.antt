-- ===== src/Exporters/Escaped.antt =====
-- What `filter_cmdline` writes can be read back.
use mathlib.Core.Bool.{true≢false, false≢true}
use scaphandre.Base.{
  ℕ, ◌≡◌, refl, sym, ◌∙◌, inl, inr, Bool, true, false, ◌&&◌, [], ◌∷◌, ◌==◌, if◌then◌else◌, eqb→eq,
  Bool-cases,
}
use scaphandre.Exporters.{quote, backslash, line_feed, replace_char, filter_cmdline}
use scaphandre.Text.{Text}

abbrev starts_quoted : Text → Bool
starts_quoted [] = false
starts_quoted (c ∷ t) = c == quote

-- A reader of quoted strings, in which a backslash in front of a quote is dropped
unfoldable pub unescape : Text → Text
unescape [] = []
unescape (c ∷ t) =
    let rest = unescape t in if c == backslash && starts_quoted t then rest else c ∷ rest

-- The two replacements, as one
filter_cmdline-cons :
    (c : ℕ) (t : Text)
    → filter_cmdline (c ∷ t) ≡ (
        if c == quote
        then backslash ∷ quote ∷ filter_cmdline t
        else (if c == line_feed then filter_cmdline t else c ∷ filter_cmdline t))
unfolding filter_cmdline replace_char
filter_cmdline-cons c t = elim (Bool-cases (c == quote)) [
  | inl q ↦ rw (eqb→eq c quote q) refl
  | inr other ↦ elim (Bool-cases (c == line_feed)) [
    | inl feed ↦ rw (filter_cmdline, other, feed) refl
    | inr plain ↦ rw (filter_cmdline, other, plain) refl
  ]
]

-- No quote stands at the front of what is written.
filter_cmdline-front : (t : Text) → starts_quoted (filter_cmdline t) ≡ false
filter_cmdline-front [] = unfold filter_cmdline replace_char in refl
filter_cmdline-front (c ∷ t) = elim (Bool-cases (c == quote)) [
  | inl q ↦ rw (filter_cmdline-cons c t, q) refl
  | inr other ↦ elim (Bool-cases (c == line_feed)) [
    | inl feed ↦ rw (filter_cmdline-cons c t, other, feed) (filter_cmdline-front t)
    | inr plain ↦ rw (filter_cmdline-cons c t, other, plain) other
  ]
]

unescape-filtered : (t : Text) → unescape (filter_cmdline t) ≡ replace_char line_feed [] t
unfolding unescape replace_char
unescape-filtered [] = unfold filter_cmdline in refl
unescape-filtered (c ∷ t) = elim (Bool-cases (c == quote)) [
  | inl q ↦ rw (eqb→eq c quote q, filter_cmdline-cons quote t, unescape-filtered t) refl
  | inr other ↦ elim (Bool-cases (c == line_feed)) [
    | inl feed ↦ rw (filter_cmdline-cons c t, other, feed) (unescape-filtered t)
    | inr plain ↦
        rw (filter_cmdline-cons c t, other, plain, unescape-filtered t, filter_cmdline-front t)
          (elim (Bool-cases (c == backslash)) [ inl b ↦ rw b refl | inr n ↦ rw n refl ])
  ]
]

-- Each quote has a backslash directly in front of it; the first argument is whether the character in
-- front of the text is one.
abbrev pub QuotesEscaped : Bool → Text → Type 0
QuotesEscaped behind [] = Unit
QuotesEscaped behind (c ∷ t) =
    (c == quote ≡ true → behind ≡ true) × QuotesEscaped (c == backslash) t

filter_cmdline-QuotesEscaped : (behind : Bool) (t : Text) → QuotesEscaped behind (filter_cmdline t)
filter_cmdline-QuotesEscaped behind [] = unfold filter_cmdline replace_char in tt
filter_cmdline-QuotesEscaped behind (c ∷ t) = elim (Bool-cases (c == quote)) [
  | inl q ↦
      rw (filter_cmdline-cons c t, q)
        (λ h. absurd (false≢true h), ((λ h. refl), filter_cmdline-QuotesEscaped false t))
  | inr other ↦ elim (Bool-cases (c == line_feed)) [
    | inl feed ↦ rw (filter_cmdline-cons c t, other, feed) (filter_cmdline-QuotesEscaped behind t)
    | inr plain ↦
        rw (filter_cmdline-cons c t, other, plain)
          (
            λ h. absurd (true≢false (sym h ∙ other)),
            filter_cmdline-QuotesEscaped (c == backslash) t,
          )
  ]
]

-- In a command line that is filtered for the output, each quote has a backslash directly in front of it;
-- and where each backslash that stands in front of a quote is dropped again, the result is the command
-- line less its line feeds. Its other characters stay, carriage returns too.
pub unescape-filter_cmdline :
    (t : Text)
    → QuotesEscaped false (filter_cmdline t)
      × (unescape (filter_cmdline t) ≡ replace_char line_feed [] t)
unescape-filter_cmdline t = (filter_cmdline-QuotesEscaped false t, unescape-filtered t)
