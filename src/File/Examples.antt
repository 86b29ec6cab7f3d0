-- ===== src/File/Examples.antt =====
-- A file open on an inode without blocks, and a table with one open file.
use dave.Common.{
  ℕ, ◌≡◌, refl, true, false, arith, List, [], ◌∷◌, Option, none, some, ok, update, if◌then◌else◌,
  ◌==◌,
}
use dave.Fs.Examples.{small_super, small_disk}
use dave.Inodes.Storing.{Bytes}
use dave.Inodes.Examples.{of_type, of_type-IsFile}
use dave.Pipe.{Pipe}
use dave.File.{File, fd_inode, fd_none, Ftable, Objects, find_file, filealloc, drop_file, filewrite}
use dave.File.Pieces.{IsOpen}
use dave.File.Writes.{FileSpec, filewrite_lem}
use dave.File.References.{count, give_back, Open, Step, allocs, here, later, IsCounted}
use dave.File.Closing.{fileclose_last}

abbrev no_pipe : Pipe
no_pipe = record { addr = 0; buf = []; nread = 0; nwrite = 0; readopen = false; writeopen = false }

abbrev pub objects : Objects
objects = record {
  pipes = λ i. no_pipe;
  procs = [];
  pages = record { use_lock = true; freelist = 0; words = λ a. 0 };
  cache = λ i. of_type 2;
  disk = small_disk;
}

abbrev pub on_inode : File
on_inode = record {
  type = fd_inode;
  ref = 0;
  readable = true;
  writable = true;
  pipe = 0;
  ip = 4;
  off = 0;
}

inode-IsOpen : IsOpen small_super (of_type 2) small_disk
inode-IsOpen = record {
  in_use = omega arith;
  loaded = refl;
  not_device = λ e. omega arith;
  within = omega arith;
  has_blocks = λ i lt. absurd (omega arith);
  file = of_type-IsFile 2;
}

abbrev text : List ℕ
text = 7 ∷ 8 ∷ 9 ∷ []

text-Bytes : Bytes text
text-Bytes = (omega arith, (omega arith, (omega arith, tt)))

abbrev no_device : ℕ → Option (List ℕ → Option ℕ)
no_device n = none

filewrite_example :
    FileSpec no_device small_super text on_inode objects
      (filewrite no_device small_super 0 false text on_inode objects)
filewrite_example =
    filewrite_lem no_device small_super 0 false text on_inode objects refl (omega arith) text-Bytes
      inode-IsOpen

abbrev files : Ftable
files i = on_inode

abbrev no_open : Open
no_open = record { files = files; held = [] }

abbrev pub opened : File
opened = record on_inode { ref = 1 }

abbrev one_open : Open
one_open = record { files = update files 0 opened; held = 0 ∷ [] }

opens : Step no_open one_open
opens = allocs no_open 0 one_open.files (omega arith) first
  where
    first : filealloc files ≡ some (0, one_open.files)
    first = unfold filealloc find_file in refl

no_open-IsCounted : IsCounted no_open
no_open-IsCounted = record {
  counted = λ i lt. refl;
  inside = λ i pos. absurd (omega arith);
  bounded = omega arith;
}

abbrev closed : Ftable
closed = update one_open.files 0 (record opened { ref = 0; type = fd_none })

drops : drop_file 0 one_open.files ≡ ok (some opened, closed)
unfolding drop_file
drops = refl

fileclose_last_example :
    IsCounted one_open
    × (some opened
        ≡ (if count 0 (give_back 0 one_open.held) == 0 then some (one_open.files 0) else none))
fileclose_last_example =
    fileclose_last no_open one_open 0 (some opened) closed
      (later no_open no_open one_open (here no_open) opens) no_open-IsCounted (omega arith) drops
