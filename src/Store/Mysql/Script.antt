-- ===== src/Store/Mysql/Script.antt =====
-- What the statements of a MySQL script are, apart from the loops that split it.
use signalwatch.Base.{Bool, not, ◌&&◌, String, ◌==◌, ◌≡◌, refl, List, [], ◌∷◌, map, arith}
use signalwatch.Base.Lists.{any, select}
use signalwatch.Store.Mysql.Migrate.{
  Strings, are_comments, all_lines_are_comments, statements_of, split_statements,
}

-- A text of which every line is empty or a comment, once it is trimmed.
abbrev pub only_comments : Strings → String → Bool
only_comments strings s = not (
    any
      (λ line.
        let trimmed = strings.trim_space line in
        not (trimmed == "") && not (strings.has_prefix trimmed "--"))
      (strings.split s "\n"))

-- The statements of a script: what stands between its semicolons, trimmed, less what is empty or only
-- comments.
unfoldable pub script_statements : Strings → String → List String
script_statements strings body =
    select (λ stmt. not (stmt == "") && not (only_comments strings stmt))
      (map strings.trim_space (strings.split body ";"))

are_comments-any :
    (strings : Strings) (lines : List String)
    → are_comments strings lines
      ≡ not (
          any
            (λ line.
              let trimmed = strings.trim_space line in
              not (trimmed == "") && not (strings.has_prefix trimmed "--"))
            lines)
unfolding are_comments any
are_comments-any strings [] = refl
are_comments-any strings (line ∷ lines) = ground (arith, are_comments-any strings lines)

statements_of-select :
    (strings : Strings) (raws : List String)
    → statements_of strings raws
      ≡ select
          (λ stmt. not (stmt == "") && not (only_comments strings stmt))
          (map strings.trim_space raws)
unfolding statements_of select all_lines_are_comments
statements_of-select strings [] = refl
statements_of-select strings (raw ∷ raws) =
    let stmt = strings.trim_space raw in
    ground
      (arith, are_comments-any strings (strings.split stmt "\n"), statements_of-select strings raws)

pub split_statements-script :
    (strings : Strings) (body : String)
    → split_statements strings body ≡ script_statements strings body
unfolding split_statements script_statements
split_statements-script strings body = statements_of-select strings (strings.split body ";")
