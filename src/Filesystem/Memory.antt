-- ===== src/Filesystem/Memory.antt =====
-- Files in memory, a function from paths to texts: they meet the laws.
use mathlib.Core.Logic.{if_neg}
use shipinator.Common.{
  arith, ◌≡◌, ◌≢◌, refl, ap, String, Option, none, some, ◌==◌, string_eq, if◌then◌else◌,
}
use shipinator.Errors.{ok, err, external, Result}
use shipinator.Filesystem.{Files}
use shipinator.Filesystem.Laws.{FileLaws}

abbrev pub Texts : Type 0
Texts = String → Option String

abbrev pub put_text : String → String → Texts → Texts
put_text path text k q = if q == path then some text else k q

abbrev pub read_text : Option String → Result String
read_text none = err (external "no such file")
read_text (some text) = ok text

abbrev pub memory : Files
memory = record {
  State = Texts;
  Reader = String;
  mkdir_all = λ dir k. (k, none);
  create = λ path k. (put_text path "" k, none);
  copy = λ path r k. (put_text path r k, none);
  write_file = λ path text k. (put_text path text k, none);
  open_file = λ path k. read_text (k path);
  marshal = λ meta. ok meta.id;
}

pub put_text-same : (path text : String) (k : Texts) → put_text path text k path ≡ some text
put_text-same path text k = ground arith

pub put_text-other :
    (path text : String) (k : Texts) (q : String) → q ≢ path → put_text path text k q ≡ k q
put_text-other path text k q n = rw (if_neg _ n) refl

abbrev pub memory_laws : FileLaws memory
memory_laws = record {
  file = λ k. k;
  fault = λ _. none;
  bytes = λ r. r;
  mkdir_all-file = λ dir k path. refl;
  create-file = λ path k _. put_text-same path "" k;
  create-other = λ path k q n. put_text-other path "" k q n;
  copy-file = λ path r k _ _. put_text-same path r k;
  copy-other = λ path r k q n. put_text-other path r k q n;
  write_file-other = λ path text k q n. put_text-other path text k q n;
  open_file-file = λ path text k _ h. ap read_text h;
}
