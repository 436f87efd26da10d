-- ===== src/Names/Dictionary.antt =====
-- The dictionary of extensions/_shared/agent-runtime/agent-names.ts.
use locus_pi.Common.{List, [], ◌∷◌, map}
use locus_pi.Common.Text.{Text, codes}
use Prim.Native.String.{String}

-- `SCIENTIST_NAMES`
abbrev names : List String
names =
    "Abel" ∷ "Adams" ∷ "Agnesi" ∷ "Ampere" ∷ "Anscombe" ∷ "Aristotle" ∷ "Avogadro" ∷ "Babbage"
    ∷ "Bacon" ∷ "Banneker" ∷ "Bardeen" ∷ "Bayes" ∷ "Becquerel" ∷ "Bell" ∷ "Bernoulli" ∷ "Bessel"
    ∷ "Bethe" ∷ "Bohr" ∷ "Boltzmann" ∷ "Boole" ∷ "Born" ∷ "Bose" ∷ "Boyle" ∷ "Bragg" ∷ "Brahe"
    ∷ "Brenner" ∷ "Brewster" ∷ "Bunsen" ∷ "Cajal" ∷ "Cannon" ∷ "Cantor" ∷ "Cardano" ∷ "Carnot"
    ∷ "Carson" ∷ "Carver" ∷ "Cauchy" ∷ "Cavendish" ∷ "Chadwick" ∷ "Chatelet" ∷ "Chladni"
    ∷ "Clausius" ∷ "Colombo" ∷ "Compton" ∷ "Comte" ∷ "Copernicus" ∷ "Coulomb" ∷ "Crick" ∷ "Curie"
    ∷ "Cuvier" ∷ "Dalton" ∷ "Darwin" ∷ "Davy" ∷ "Dedekind" ∷ "Descartes" ∷ "Dirac" ∷ "Doppler"
    ∷ "Draper" ∷ "Dyson" ∷ "Eddington" ∷ "Edison" ∷ "Ehrlich" ∷ "Einstein" ∷ "Elion" ∷ "Euclid"
    ∷ "Euler" ∷ "Faraday" ∷ "Fermat" ∷ "Fermi" ∷ "Feynman" ∷ "Fibonacci" ∷ "Fischer" ∷ "Fleming"
    ∷ "Fourier" ∷ "Franklin" ∷ "Fresnel" ∷ "Frisch" ∷ "Galilei" ∷ "Galois" ∷ "Galton" ∷ "Gamow"
    ∷ "Gauss" ∷ "Geiger" ∷ "Germain" ∷ "Gibbs" ∷ "Godel" ∷ "Goodall" ∷ "Gould" ∷ "Halley"
    ∷ "Hamilton" ∷ "Hardy" ∷ "Hawking" ∷ "Heaviside" ∷ "Heisenberg" ∷ "Helmholtz" ∷ "Henry"
    ∷ "Herschel" ∷ "Hertz" ∷ "Hilbert" ∷ "Hodgkin" ∷ "Hooke" ∷ "Hopper" ∷ "Hubble" ∷ "Humboldt"
    ∷ "Hutton" ∷ "Huxley" ∷ "Huygens" ∷ "Jacobi" ∷ "Jenner" ∷ "Joliot" ∷ "Joule" ∷ "Kapitsa"
    ∷ "Kepler" ∷ "Khayyam" ∷ "Kirchhoff" ∷ "Koch" ∷ "Krebs" ∷ "Lagrange" ∷ "Lamarck" ∷ "Landau"
    ∷ "Langevin" ∷ "Laplace" ∷ "Lavoisier" ∷ "Lawrence" ∷ "Leakey" ∷ "Leavitt" ∷ "Lebesgue"
    ∷ "Leclerc" ∷ "Legendre" ∷ "Leibniz" ∷ "Lemaitre" ∷ "Lenard" ∷ "Lenz" ∷ "Linnaeus" ∷ "Liouville"
    ∷ "Lister" ∷ "Lorentz" ∷ "Lorenz" ∷ "Lovelace" ∷ "Mach" ∷ "Maiman" ∷ "Malpighi" ∷ "Malthus"
    ∷ "Marconi" ∷ "Maxwell" ∷ "Mayer" ∷ "Meitner" ∷ "Mendel" ∷ "Mendeleev" ∷ "Mercator"
    ∷ "Michelson" ∷ "Millikan" ∷ "Minkowski" ∷ "Mobius" ∷ "Monod" ∷ "Morley" ∷ "Morse" ∷ "Moseley"
    ∷ "Napier" ∷ "Nash" ∷ "Nernst" ∷ "Neumann" ∷ "Newton" ∷ "Nobel" ∷ "Noether" ∷ "Oersted" ∷ "Ohm"
    ∷ "Onsager" ∷ "Ostwald" ∷ "Pascal" ∷ "Pasteur" ∷ "Pauli" ∷ "Pauling" ∷ "Pavlov" ∷ "Peano"
    ∷ "Pearson" ∷ "Penrose" ∷ "Perrin" ∷ "Planck" ∷ "Playfair" ∷ "Poincare" ∷ "Poisson" ∷ "Ptolemy"
    ∷ "Raman" ∷ "Ramanujan" ∷ "Ramsay" ∷ "Rayleigh" ∷ "Redi" ∷ "Reines" ∷ "Riemann" ∷ "Roentgen"
    ∷ "Russell" ∷ "Rutherford" ∷ "Rydberg" ∷ "Sabin" ∷ "Sagan" ∷ "Sakharov" ∷ "Salam" ∷ "Sanger"
    ∷ "Schwinger" ∷ "Seaborg" ∷ "Snell" ∷ "Somerville" ∷ "Stark" ∷ "Steno" ∷ "Stokes" ∷ "Tartaglia"
    ∷ "Teller" ∷ "Tesla" ∷ "Thales" ∷ "Thomson" ∷ "Torricelli" ∷ "Turing" ∷ "Tyson" ∷ "Volta"
    ∷ "Wallace" ∷ "Watson" ∷ "Watt" ∷ "Weber" ∷ "Wegener" ∷ "Wheeler" ∷ "Whitney" ∷ "Wigner"
    ∷ "Wilkins" ∷ "Witten" ∷ "Wozniak" ∷ "Wren" ∷ "Wright" ∷ "Yalow" ∷ "Yonath" ∷ "Young" ∷ "Yukawa"
    ∷ "Zeeman" ∷ "Zwicky" ∷ []

abbrev pub scientist_names : List Text
scientist_names = map codes names
