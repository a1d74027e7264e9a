-- ===== src/Compare/Tests.antt =====
-- The comparisons and the search at concrete strings.
use libglim.Itoa.{codes}
use libglim.Compare.{find}
use libglim.Compare.Search.{FoundFrom, find-FoundFrom}

find-FoundFrom_example :
    FoundFrom (codes "abcabc") (codes "ca") 1 (find (codes "abcabc") (codes "ca") 1)
find-FoundFrom_example = find-FoundFrom (codes "abcabc") (codes "ca") 1
