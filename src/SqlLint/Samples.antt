-- ===== src/SqlLint/Samples.antt =====
-- Sample migrations.
use wingmen_orchestrator.Prelude.{◌≡◌, refl, some, List, [], ◌∷◌}
use wingmen_orchestrator.Prelude.Texts.{Text, codes}
use wingmen_orchestrator.SqlLint.Statements.{split_statements, split_from, move}
use wingmen_orchestrator.SqlLint.Statements.Join.{Splits, split_statements-Splits}
use wingmen_orchestrator.SqlLint.Lines.{line_starts, lineno, search}

abbrev sql : Text
sql = codes "update t set a='x;''y'; drop b; "

split_test :
    split_statements sql ≡ (0, codes "update t set a='x;''y';") ∷ (23, codes " drop b;") ∷ []
unfolding split_statements split_from move
split_test = refl

split_statements-Splits_example : Splits 0 sql (split_statements sql)
split_statements-Splits_example = split_statements-Splits sql

abbrev rows : List Text
rows = codes "ab\n" ∷ codes "c\n" ∷ codes "def" ∷ []

lineno_test : lineno (line_starts 0 rows) 4 ≡ some 2
unfolding lineno line_starts search
lineno_test = refl
