-- ===== src/Utils/Examples.antt =====
-- The helpers of src/common/utils.c at concrete texts.
use primagen.Base.{◌≡◌, length, codes, Text}
use primagen.Utils.{escape_xml, escaped_length}
use primagen.Utils.Escape.{IsInert, length-escape_xml, escape_xml-IsInert}

abbrev tag : Text
tag = codes "<a b='c'>&"

length-escape_xml_example : length (escape_xml tag) ≡ escaped_length tag
length-escape_xml_example = length-escape_xml tag

escape_xml-IsInert_example : IsInert (escape_xml tag)
escape_xml-IsInert_example = escape_xml-IsInert tag
