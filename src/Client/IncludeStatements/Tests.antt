-- ===== src/Client/IncludeStatements/Tests.antt =====
-- Small files for internal/client/own-includes-parser.go.
use nocc.Client.IncludeStatements.{
  IncludedArg, str_chr, buffer_size, collect_include_statements_in_file,
}
use nocc.Client.IncludeStatements.Ending.{collect_include_statements_in_file-Ends}
use nocc.Client.IncludeStatements.Finding.{
  Piece, statement, comment, file_of, args_of, collect_include_statements_in_file-finds,
}
use nocc.Client.IncludeStatements.Hanging.{collect_include_statements_in_file-hangs}
use nocc.Prelude.Text.{ascii}
use nocc.Client.IncludeStatements.Places.{Lacks}
use nocc.Prelude.{
  ℕ, Bool, not, ◌&&◌, nat_beq, arith, List, true, false, some, none, [], ◌∷◌, ◌++◌, Bytes, ◌≡◌,
  refl,
}

abbrev file : Bytes
file =
    ascii
      "/* #include <no.h> */\n#include <a.h>\n// #include <c.h>\n# include_next \"b.h\"\nint x;\n"

collected :
    collect_include_statements_in_file 100 file []
    ≡ some (
        record { inside_str = ascii "a.h"; is_quote = false; is_include_next = false }
        ∷ record { inside_str = ascii "b.h"; is_quote = true; is_include_next = true }
        ∷ [])
unfolding collect_include_statements_in_file
collected = refl

-- A string that holds a slash and a star starts a comment.
star_in_a_string :
    collect_include_statements_in_file 100
      (ascii "const char *g = \"src/*\";\n#include \"b.h\"\n")
      []
    ≡ some []
unfolding collect_include_statements_in_file
star_in_a_string = refl

abbrev differs : ℕ → Bytes → Bool
differs chr [] = true
differs chr (x ∷ s) = not (nat_beq x chr) && differs chr s

differs-Lacks : (chr : ℕ) (s : Bytes) → differs chr s ≡ true → Lacks chr s
differs-Lacks chr [] e = tt
differs-Lacks chr (x ∷ s) e = (ground arith, differs-Lacks chr s (ground arith))

-- Two statements, a third one commented out between, and code behind.
abbrev pieces : List Piece
pieces =
    statement [] true (ascii "b.h")
    ∷ comment (b'\n' ∷ []) (ascii " #include <no.h>")
    ∷ statement (ascii "int x;\n") false (ascii "a/c.h")
    ∷ []

abbrev code : Bytes
code = ascii "int y = 4 / 2; /* no hash */\n"

collect_include_statements_in_file-finds_example :
    collect_include_statements_in_file 59 (file_of pieces ++ code) [] ≡ some (args_of pieces)
unfolding buffer_size
collect_include_statements_in_file-finds_example =
    collect_include_statements_in_file-finds pieces code []
      (
        (tt, (tt, (differs-Lacks b'\n' (ascii "b.h") refl, differs-Lacks b'"' (ascii "b.h") refl))),
        (
          (
            differs-Lacks b'#' (b'\n' ∷ []) refl,
            (
              differs-Lacks b'/' (b'\n' ∷ []) refl,
              differs-Lacks b'\n' (ascii " #include <no.h>") refl,
            ),
          ),
          (
            (
              differs-Lacks b'#' (ascii "int x;\n") refl,
              (
                differs-Lacks b'/' (ascii "int x;\n") refl,
                (differs-Lacks b'\n' (ascii "a/c.h") refl, differs-Lacks b'>' (ascii "a/c.h") refl),
              ),
            ),
            tt,
          ),
        ),
      )
      refl

abbrev text : Bytes
text = ascii "/* #include <no.h> */\n#include <a.h>\n// see #12\nint x;"

collect_include_statements_in_file-Ends_example :
    (r : List IncludedArg) × (collect_include_statements_in_file 49 (text ++ (b'\n' ∷ [])) []
      ≡ some r)
unfolding buffer_size
collect_include_statements_in_file-Ends_example =
    collect_include_statements_in_file-Ends text [] 48 refl

-- No end of line behind the comment.
abbrev unended : Bytes
unended = ascii "int x; // see #12345"

collect_include_statements_in_file-hangs_example :
    collect_include_statements_in_file 1000 unended [] ≡ none
unfolding buffer_size str_chr
collect_include_statements_in_file-hangs_example =
    collect_include_statements_in_file-hangs unended [] 20 14 7 refl refl refl (omega arith) refl
      refl 1000
