-- ===== src/Util/RandomName/Words.antt =====
-- The word lists of crates/util/src/name.rs.
use ingot_engine.Base.{List, [], ◌∷◌}
use ingot_engine.Base.Text.{Text, codes}

unfoldable pub adjectives : List Text
adjectives =
    codes "admiring"
    ∷ codes "adoring"
    ∷ codes "affectionate"
    ∷ codes "agitated"
    ∷ codes "amazing"
    ∷ codes "angry"
    ∷ codes "awesome"
    ∷ codes "beautiful"
    ∷ codes "blissful"
    ∷ codes "bold"
    ∷ codes "boring"
    ∷ codes "brave"
    ∷ codes "busy"
    ∷ codes "charming"
    ∷ codes "clever"
    ∷ codes "cool"
    ∷ codes "compassionate"
    ∷ codes "competent"
    ∷ codes "condescending"
    ∷ codes "confident"
    ∷ codes "cranky"
    ∷ codes "crazy"
    ∷ codes "dazzling"
    ∷ codes "determined"
    ∷ codes "distracted"
    ∷ codes "dreamy"
    ∷ codes "eager"
    ∷ codes "ecstatic"
    ∷ codes "elastic"
    ∷ codes "elated"
    ∷ codes "elegant"
    ∷ codes "eloquent"
    ∷ codes "epic"
    ∷ codes "exciting"
    ∷ codes "fervent"
    ∷ codes "festive"
    ∷ codes "flamboyant"
    ∷ codes "focused"
    ∷ codes "friendly"
    ∷ codes "frosty"
    ∷ codes "funny"
    ∷ codes "gallant"
    ∷ codes "gifted"
    ∷ codes "goofy"
    ∷ codes "gracious"
    ∷ codes "great"
    ∷ codes "happy"
    ∷ codes "hardcore"
    ∷ codes "heuristic"
    ∷ codes "hopeful"
    ∷ codes "hungry"
    ∷ codes "infallible"
    ∷ codes "inspiring"
    ∷ codes "intelligent"
    ∷ codes "interesting"
    ∷ codes "jolly"
    ∷ codes "jovial"
    ∷ codes "keen"
    ∷ codes "kind"
    ∷ codes "laughing"
    ∷ codes "loving"
    ∷ codes "lucid"
    ∷ codes "magical"
    ∷ codes "modest"
    ∷ codes "musing"
    ∷ codes "mystifying"
    ∷ codes "naughty"
    ∷ codes "nervous"
    ∷ codes "nice"
    ∷ codes "nifty"
    ∷ codes "nostalgic"
    ∷ codes "objective"
    ∷ codes "optimistic"
    ∷ codes "peaceful"
    ∷ codes "pedantic"
    ∷ codes "pensive"
    ∷ codes "practical"
    ∷ codes "priceless"
    ∷ codes "quirky"
    ∷ codes "quizzical"
    ∷ codes "recursing"
    ∷ codes "relaxed"
    ∷ codes "reverent"
    ∷ codes "romantic"
    ∷ codes "sad"
    ∷ codes "serene"
    ∷ codes "sharp"
    ∷ codes "silly"
    ∷ codes "sleepy"
    ∷ codes "stoic"
    ∷ codes "strange"
    ∷ codes "stupefied"
    ∷ codes "suspicious"
    ∷ codes "sweet"
    ∷ codes "tender"
    ∷ codes "thirsty"
    ∷ codes "trusting"
    ∷ codes "unruffled"
    ∷ codes "upbeat"
    ∷ codes "vibrant"
    ∷ codes "vigilant"
    ∷ codes "vigorous"
    ∷ codes "wizardly"
    ∷ codes "wonderful"
    ∷ codes "xenodochial"
    ∷ codes "youthful"
    ∷ codes "zealous"
    ∷ codes "zen"
    ∷ []

unfoldable pub scientists : List Text
scientists =
    codes "albattani"
    ∷ codes "allen"
    ∷ codes "almeida"
    ∷ codes "antonelli"
    ∷ codes "agnesi"
    ∷ codes "archimedes"
    ∷ codes "ardinghelli"
    ∷ codes "aryabhata"
    ∷ codes "austin"
    ∷ codes "babbage"
    ∷ codes "banach"
    ∷ codes "bardeen"
    ∷ codes "bartik"
    ∷ codes "bassi"
    ∷ codes "beaver"
    ∷ codes "bell"
    ∷ codes "benz"
    ∷ codes "bhabha"
    ∷ codes "bhaskara"
    ∷ codes "blackburn"
    ∷ codes "blackwell"
    ∷ codes "bohr"
    ∷ codes "booth"
    ∷ codes "borg"
    ∷ codes "bose"
    ∷ codes "bouman"
    ∷ codes "boyd"
    ∷ codes "brahmagupta"
    ∷ codes "brattain"
    ∷ codes "brown"
    ∷ codes "buck"
    ∷ codes "burnell"
    ∷ codes "cannon"
    ∷ codes "carson"
    ∷ codes "cartwright"
    ∷ codes "carver"
    ∷ codes "cerf"
    ∷ codes "chandrasekhar"
    ∷ codes "chaplygin"
    ∷ codes "chatelet"
    ∷ codes "chatterjee"
    ∷ codes "chebyshev"
    ∷ codes "cohen"
    ∷ codes "colden"
    ∷ codes "cori"
    ∷ codes "cray"
    ∷ codes "curie"
    ∷ codes "darwin"
    ∷ codes "davinci"
    ∷ codes "dewdney"
    ∷ codes "dhawan"
    ∷ codes "diffie"
    ∷ codes "dijkstra"
    ∷ codes "dubinsky"
    ∷ codes "easley"
    ∷ codes "edison"
    ∷ codes "einstein"
    ∷ codes "elbakyan"
    ∷ codes "elgamal"
    ∷ codes "elion"
    ∷ codes "ellis"
    ∷ codes "engelbart"
    ∷ codes "euclid"
    ∷ codes "euler"
    ∷ codes "faraday"
    ∷ codes "feistel"
    ∷ codes "fermat"
    ∷ codes "fermi"
    ∷ codes "feynman"
    ∷ codes "franklin"
    ∷ codes "gagarin"
    ∷ codes "galileo"
    ∷ codes "galois"
    ∷ codes "ganguly"
    ∷ codes "gates"
    ∷ codes "gauss"
    ∷ codes "germain"
    ∷ codes "goldberg"
    ∷ codes "goldstine"
    ∷ codes "goldwasser"
    ∷ codes "golick"
    ∷ codes "goodall"
    ∷ codes "gould"
    ∷ codes "greider"
    ∷ codes "grothendieck"
    ∷ codes "haibt"
    ∷ codes "hamilton"
    ∷ codes "hawking"
    ∷ codes "hellman"
    ∷ codes "heisenberg"
    ∷ codes "hermann"
    ∷ codes "herschel"
    ∷ codes "hertz"
    ∷ codes "heyrovsky"
    ∷ codes "hodgkin"
    ∷ codes "hofstadter"
    ∷ codes "hoover"
    ∷ codes "hopper"
    ∷ codes "hugle"
    ∷ codes "hypatia"
    ∷ codes "ishizaka"
    ∷ codes "jackson"
    ∷ codes "jang"
    ∷ codes "jemison"
    ∷ codes "jennings"
    ∷ codes "jepsen"
    ∷ codes "johnson"
    ∷ codes "joliot"
    ∷ codes "jones"
    ∷ codes "kalam"
    ∷ codes "kapitsa"
    ∷ codes "kare"
    ∷ codes "keldysh"
    ∷ codes "keller"
    ∷ codes "kepler"
    ∷ codes "khayyam"
    ∷ codes "khorana"
    ∷ codes "kilby"
    ∷ codes "kirch"
    ∷ codes "knuth"
    ∷ codes "kowalevski"
    ∷ codes "lalande"
    ∷ codes "lamarr"
    ∷ codes "lamport"
    ∷ codes "leakey"
    ∷ codes "leavitt"
    ∷ codes "lederberg"
    ∷ codes "lehmann"
    ∷ codes "lewin"
    ∷ codes "lichterman"
    ∷ codes "liskov"
    ∷ codes "lovelace"
    ∷ codes "lumiere"
    ∷ codes "mahavira"
    ∷ codes "margulis"
    ∷ codes "matsumoto"
    ∷ codes "maxwell"
    ∷ codes "mayer"
    ∷ codes "mccarthy"
    ∷ codes "mcclintock"
    ∷ codes "mclaren"
    ∷ codes "mclean"
    ∷ codes "mcnulty"
    ∷ codes "meitner"
    ∷ codes "mendel"
    ∷ codes "mendeleev"
    ∷ codes "meucci"
    ∷ codes "meyerhof"
    ∷ codes "mirzakhani"
    ∷ codes "montalcini"
    ∷ codes "moore"
    ∷ codes "morse"
    ∷ codes "murdock"
    ∷ codes "moser"
    ∷ codes "napier"
    ∷ codes "nash"
    ∷ codes "neumann"
    ∷ codes "newton"
    ∷ codes "nightingale"
    ∷ codes "nobel"
    ∷ codes "noether"
    ∷ codes "northcutt"
    ∷ codes "noyce"
    ∷ codes "panini"
    ∷ codes "pare"
    ∷ codes "pascal"
    ∷ codes "pasteur"
    ∷ codes "payne"
    ∷ codes "perlman"
    ∷ codes "pike"
    ∷ codes "poincare"
    ∷ codes "poitras"
    ∷ codes "proskuriakova"
    ∷ codes "ptolemy"
    ∷ codes "raman"
    ∷ codes "ramanujan"
    ∷ codes "ride"
    ∷ codes "ritchie"
    ∷ codes "rhodes"
    ∷ codes "robinson"
    ∷ codes "roentgen"
    ∷ codes "rosalind"
    ∷ codes "rubin"
    ∷ codes "saha"
    ∷ codes "sammet"
    ∷ codes "sanderson"
    ∷ codes "satoshi"
    ∷ codes "shamir"
    ∷ codes "shannon"
    ∷ codes "shaw"
    ∷ codes "shirley"
    ∷ codes "shockley"
    ∷ codes "shtern"
    ∷ codes "sinoussi"
    ∷ codes "snyder"
    ∷ codes "solomon"
    ∷ codes "spence"
    ∷ codes "stonebraker"
    ∷ codes "sutherland"
    ∷ codes "swanson"
    ∷ codes "swartz"
    ∷ codes "swirles"
    ∷ codes "taussig"
    ∷ codes "tereshkova"
    ∷ codes "tesla"
    ∷ codes "tharp"
    ∷ codes "thompson"
    ∷ codes "torvalds"
    ∷ codes "tu"
    ∷ codes "turing"
    ∷ codes "varahamihira"
    ∷ codes "vaughan"
    ∷ codes "villani"
    ∷ codes "visvesvaraya"
    ∷ codes "volhard"
    ∷ codes "wescoff"
    ∷ codes "wilbur"
    ∷ codes "wiles"
    ∷ codes "williams"
    ∷ codes "williamson"
    ∷ codes "wilson"
    ∷ codes "wing"
    ∷ codes "wozniak"
    ∷ codes "wright"
    ∷ codes "wu"
    ∷ codes "yalow"
    ∷ codes "yonath"
    ∷ codes "zhukovsky"
    ∷ []
